-- ===== src/Lib.antt =====
-- Quantix connector: a gateway that polls industrial devices over Modbus, TCP, serial lines and MQTT, by
-- templates that an operator writes, and publishes their readings to its subscribers.
--
-- The parts. The device manager (internal/service/device_manager.go) keeps a runtime for each enabled
-- device. A runtime's loop connects the driver (internal/driver), has the protocol executor
-- (internal/service/protocol_executor.go) run the steps of the device's template over it, turns the
-- rendered output into the runtime's state (internal/service/runtime_state.go), counts in the metrics
-- (internal/service/metrics.go), and passes the state's message to the event bus
-- (internal/service/event_bus.go), which hands copies to its subscribers. Beside it the print agent
-- (internal/service/print_agent.go) claims print jobs from a server under the settings of
-- internal/config/config.go, and the serial debugger (internal/service/serial_debug_service.go) lets a
-- user talk to one serial port. The HTTP API (internal/api) edits the templates and devices in the database
-- (internal/store), passes requests that state the API key on to these services, and sends what the bus
-- publishes to its websockets. cmd/server/main.go starts all of it, and shuts it down once.
--
-- The files.
--   Prelude: numbers, lists, Go's integers (Int) and texts as bytes (Text).
--   Value: Go's `any` and maps; Maps reads and writes them, Sprint is `%v`. The record Libs holds what the
--     model takes from outside: floating point, ParseFloat, Sscanf, regular expressions, base64,
--     expr-lang. Toy makes them concrete for test runs.
--   Driver: the interface of internal/driver/driver.go, a record of functions over a driver's state.
--   EventBus: NewEventBus, Subscribe, Unsubscribe, Publish with trySend and tryDropOldest. What other
--     goroutines do between the selects of one delivery is a Rival, a parameter. Delivery, Order, Lifecycle
--     and Channels hold the proofs.
--   Executor: Context has the placeholders (resolveValue, getFromContext), Convert the conversions, Struct
--     the layouts (parseStructResult, parseStructField), Step one step (executeStep, runTransform,
--     parseResult), Poll the runs RunSetupSteps and RunPollSteps, Manual the runs RunManualStep and
--     RunMessageHandler. Their child modules hold the proofs.
--   Metrics: RuntimeMetrics; Ring and Sorted hold the proofs.
--   Runtime: RuntimeState and its message; Message holds the proof.
--   Modbus: the driver of internal/driver/modbus.go; Params has the readers of internal/driver/util.go, Bits
--     and Session the proofs. The record Line stands for opening lines and for what a device answers.
--   Tcp: the driver of internal/driver/tcp.go, which fills the interface of Driver; Encode has toBytes of
--     internal/driver/util.go, Session the proofs. The record Socket stands for the network.
--   Serial: the driver of internal/driver/serial.go; Receive is the loop that receives over turns, each with
--     the clock and what the port reads, Received and Receipts hold the proofs.
--   Mqtt: the driver of internal/driver/mqtt.go; Session adds the clients that it makes and their callbacks,
--     in any order.
--   Config: internal/config/config.go; Mappings the template mappings, Store the local file over a Disk,
--     Normal and Saved the proofs.
--   PrintAgent: internal/service/print_agent.go. Btxml builds the script, Execute runs a job over a Host,
--     Remote talks to a Server, Poll has a poll, DirectJob a direct call, Lifecycle the start, update and
--     shutdown of workers, which are numbered groups. Lifecycle.Groups lets the sections under the lock that
--     start and stop them follow each other in any order. A process that a job runs is taken to end.
--   SerialDebug: internal/service/serial_debug_service.go; Payload, Reading and Log with their proofs.
--   Store: internal/store/models.go and the repair of codes in internal/store/db.go; Codes, Fresh and Ensure
--     hold the proofs.
--   Api: internal/api. Protocols has the handlers of templates over a database Db, Trial the trials of a
--     template and of a step over a driver, Codes the validation, Devices the handlers of devices over a
--     DeviceDb and the manager, Categories those of printers, scanners and boards, Connection the trial of
--     a connection. The record of a request is what gin has bound; a handler by id and the one by code
--     are one function of the row that was found, which Devices.Routes applies to both; Devices.Stored
--     follows the database over any requests. Access is internal/api/server.go: the key, and what a request
--     meets on its way to a handler; Restart follows the key over a restart. Stream is
--     internal/api/websocket.go, a subscriber of the bus; Stream.World lets its rounds and what others do on
--     the bus follow each other in any order. Agent has the routes of internal/api/print_agent.go and
--     internal/api/remote_print.go.
--   Manager: Units has normalizeUnit, recoverWeightUnit and the like, Scanner the deduplication of
--     barcodes, Device the texts of errors, Loop one turn of runRuntimeLoop and the restart of
--     superviseRuntime, Calls handleMqttMessage and ExecuteManualStep, Lifecycle the start, stop, reload
--     and shutdown of runtimes, HealthSnapshot and RuntimeSnapshot.
--   Main: cmd/server/main.go: boot runs main up to the listening server, shutdown is its closure of that name,
--     and an App holds the parts that it stops.
--
-- State is passed explicitly: a call takes the state and gives the new one. A Go function that returns an
-- error or panics gives a Result, which has a case for each. A lock is modelled where it matters: ioMu is
-- a flag of the loop's state, which a panic leaves set; the other locks make their sections atomic.
-- Integers of Go are those of Prelude.Int, with sums that wrap around at 64 bits, and counters wrap at
-- 2^64. A map is an association list, IsMap where a key must not occur twice; the order of an iteration
-- over a map is the order of the list.
--
-- Loops over templates, payloads and subscribers are structural, so nothing runs on fuel but the digits of
-- a number, which are at most its value plus one. A read of the serial debugger takes its turns from a
-- list, and so does one of the serial driver; both end at the first turn behind the deadline. The endless loop of a runtime is a function of the moments of its turns.
--
-- Not modelled: the routes of internal/api/serial_debug.go, which only bind a request and pass it on to the
-- serial debugger; the documents and file dialogs of internal/api; the rows that internal/store/seed.go
-- inserts into a new database; the log file, the Windows tray and the icon generator. gorm, gin and the
-- other packages under vendor/, files, the environment, clocks and sleeping are I/O or libraries, and enter
-- as parameters where the model uses them. White space and letter case are those of ASCII.
pub mod Prelude
pub mod Value
pub mod Driver
pub mod EventBus
pub mod Executor
pub mod Metrics
pub mod Runtime
pub mod Manager
pub mod Modbus
pub mod Tcp
pub mod Serial
pub mod Mqtt
pub mod Config
pub mod PrintAgent
pub mod SerialDebug
pub mod Store
pub mod Api
pub mod Main
