-- ===== src/SerialDebug/Log.antt =====
-- internal/service/serial_debug_service.go: the log (appendLog, PullLogs).
pub mod History
pub mod Pulling
use quantix_cnnector_go.Prelude.{
  ℕ, zero, suc, ◌+◌, ◌-◌, ◌≤◌, ◌<◌, ◌^◌, ◌≡◌, refl, ap, sym, ◌∙◌, subst, Bool, true, false,
  Bool-cases, List, [], ◌∷◌, ◌++◌, arith, length, length-append, length-keep_last, drop, keep_last,
  keep_last_all, ltb, leb, if◌then◌else◌, ◌⊎◌, inl, inr,
}
use quantix_cnnector_go.Prelude.Int.{ℤ, pos, negsuc, ltb_ℤ, leb_ℤ, pos_part}
use quantix_cnnector_go.Prelude.Text.{Bytes, hex_spaced}
use quantix_cnnector_go.Value.{Libs, Error, Fields}
use quantix_cnnector_go.SerialDebug.{
  LogEntry, SerialDebugService, SerialPort, append_log, new_serial_debug_service, open_port, opened,
  close_port, send,
}
use quantix_cnnector_go.SerialDebug.Payload.{Numbers}
use quantix_cnnector_go.SerialDebug.Reading.{
  Turn, ReadEnd, canceled, complete, failed, waiting, Read, read, read_ended, read_loop,
}

pub record Pulled : Type 0 where
  pub entries : List LogEntry
  pub next_seq : ℕ

abbrev pub limit_of : ℤ → ℕ
limit_of limit =
    if leb_ℤ limit (pos 0) then 1 else if ltb_ℤ (pos 500) limit then 500 else pos_part limit

module _ (lib : Libs) where
  -- int(getFloat(item["seq"], 0)) > lastSeq
  abbrev pub is_newer : ℤ → LogEntry → Bool
  is_newer last_seq item = ltb_ℤ last_seq (lib.int_of_float (lib.float_of_int (pos item.seq)))

  unfoldable pub newer : ℤ → List LogEntry → List LogEntry
  newer last_seq [] = []
  newer last_seq (item ∷ logs) =
      let rest = newer last_seq logs in if is_newer last_seq item then item ∷ rest else rest

  unfoldable pub pull_logs : SerialDebugService → ℤ → ℤ → Pulled
  unfolding newer
  pull_logs s last_seq limit =
      let entries = newer last_seq s.logs in
      record {
        entries =
            if ltb (limit_of limit) (length entries)
            then keep_last (limit_of limit) entries
            else entries;
        next_seq = s.log_seq;
      }

-- The entries are numbered one by one from k + 1 to n.
abbrev pub Numbered : ℕ → List LogEntry → ℕ → Type 0
Numbered k [] n = k ≡ n
Numbered k (e ∷ logs) n = (e.seq ≡ suc k) × Numbered (suc k) logs n

pub record IsLog (s : SerialDebugService) : Type 0 where
  pub short : length s.logs ≤ 1000
  pub since : length s.logs ≤ s.log_seq
  pub numbered : Numbered (s.log_seq - length s.logs) s.logs s.log_seq

pub Numbered-length : (k n : ℕ) (logs : List LogEntry) → Numbered k logs n → k + length logs ≡ n
Numbered-length k n [] h = omega (arith, h)
Numbered-length k n (e ∷ logs) h = omega (arith, Numbered-length (suc k) n logs h.1)

Numbered-snoc :
    (k n : ℕ) (logs : List LogEntry) (e : LogEntry)
    → Numbered k logs n
    → e.seq ≡ suc n
    → Numbered k (logs ++ e ∷ []) (suc n)
Numbered-snoc k n [] e h p = (omega (arith, h, p), omega (arith, h))
Numbered-snoc k n (x ∷ logs) e h p = (h.0, Numbered-snoc (suc k) n logs e h.1 p)

Numbered-drop :
    (j k n : ℕ) (logs : List LogEntry)
    → j ≤ length logs
    → Numbered k logs n
    → Numbered (k + j) (drop j logs) n
Numbered-drop zero k n logs l h =
    let e : k + 0 ≡ k = omega arith in subst (λ i. Numbered i logs n) (sym e) h
Numbered-drop (suc j) k n [] l h = absurd (omega arith)
Numbered-drop (suc j) k n (x ∷ logs) l h =
    let e : suc k + j ≡ k + suc j = omega arith in
    subst (λ i. Numbered i (drop j logs) n) e (Numbered-drop j (suc k) n logs (omega arith) h.1)

Numbered-from : (k i n : ℕ) (logs : List LogEntry) → k ≡ i → Numbered k logs n → Numbered i logs n
Numbered-from k i n logs e h = subst (λ x. Numbered x logs n) e h

pub append_log-IsLog :
    (now : Bytes) (s : SerialDebugService) (direction payload text : Bytes)
    → IsLog s
    → IsLog (append_log now s direction payload text)
unfolding append_log
append_log-IsLog now s direction payload text i =
    let entry : LogEntry = record {
      seq = suc s.log_seq;
      direction = direction;
      bytes = length payload;
      text = text;
      hex = hex_spaced payload;
      timestamp = now;
    } in
    let logs : List LogEntry = s.logs ++ entry ∷ [] in
    let k : ℕ = s.log_seq - length s.logs in
    let n : ℕ = length logs - 1000 in
    let size : length logs ≡ length s.logs + 1 = length-append s.logs (entry ∷ []) in
    let all : Numbered k logs (suc s.log_seq) =
      Numbered-snoc k s.log_seq s.logs entry i.numbered refl in
    elim (Bool-cases (ltb 1000 (length logs))) [
      | inl e ↦ rw e (record {
        short = omega (arith, length-keep_last 1000 logs);
        since = omega (arith, length-keep_last 1000 logs, i.since, size);
        numbered =
            Numbered-from (k + n) (suc s.log_seq - length (keep_last 1000 logs)) (suc s.log_seq)
              (keep_last 1000 logs) (ground (arith, length-keep_last 1000 logs, i.since, size, e))
              (Numbered-drop n k (suc s.log_seq) logs (omega arith) all);
      })
      | inr e ↦ rw e (record {
        short = ground (arith, e);
        since = omega (arith, i.since, size);
        numbered =
            Numbered-from k (suc s.log_seq - length logs) (suc s.log_seq) logs
              (omega (arith, i.since, size)) all;
      })
    ]
