-- ===== src/PrintAgent/Lifecycle/Groups.antt =====
-- Groups of workers (Start, Shutdown, UpdateConfig): which of them run on and can be stopped.
use quantix_cnnector_go.Prelude.{
  ℕ, suc, ◌<◌, ◌≡◌, refl, sym, ap, ◌∙◌, subst, true, false, Bool-cases, inl, inr, Option, none,
  some, List, [], ◌∷◌, ◌++◌, arith, ◌==◌, if◌then◌else◌,
}
use quantix_cnnector_go.Value.{Result, ok, err, panic, ◌>>=◌, Error}
use quantix_cnnector_go.Config.{PrintAgentSettings}
use quantix_cnnector_go.PrintAgent.{PrintAgentService, normalize_agent_cfg, make_chan}
use quantix_cnnector_go.PrintAgent.Lifecycle.{
  new_print_agent_service, fresh_service, start_locked, start, detach, shutdown, configured,
  update_begin, update_finish, group_ended, is_group,
}

-- The groups that nobody has canceled: `cancel` of a service takes one out.
abbrev pub remove : ℕ → List ℕ → List ℕ
remove g [] = []
remove g (h ∷ live) = if h == g then remove g live else h ∷ remove g live

abbrev pub cancel_group : Option ℕ → List ℕ → List ℕ
cancel_group none live = live
cancel_group (some g) live = remove g live

-- A start that gave out a number added a group.
abbrev pub with_started : PrintAgentService → PrintAgentService → List ℕ → List ℕ
with_started s s' live = if s'.next_group == s.next_group then live else live ++ s.next_group ∷ []

-- One operation at a time; the workers change anything but what belongs to the groups.
pub data Step : PrintAgentService → List ℕ → PrintAgentService → List ℕ → Type 0 where
  starts :
      (s : PrintAgentService) (live : List ℕ)
      → s.cancel ≡ none
      → Step s live (start s) (with_started s (start s) live)
  shuts_down :
      (s : PrintAgentService) (live : List ℕ) (waits : ℕ → Option Error)
      → Step s live (shutdown waits s).1 (cancel_group s.cancel live)
  updates :
      (s d : PrintAgentService) (live : List ℕ) (given : PrintAgentSettings) (late : Option Error)
      → update_begin s given ≡ ok d
      → Step s live
          (update_finish late d given)
          (with_started d (update_finish late d given) (cancel_group s.cancel live))
  ends : (s : PrintAgentService) (live : List ℕ) (g : ℕ) → Step s live (group_ended s g) live
  works :
      (s s' : PrintAgentService) (live : List ℕ)
      → s'.cancel ≡ s.cancel
      → s'.done ≡ s.done
      → s'.next_group ≡ s.next_group
      → s'.status.running ≡ s.status.running
      → Step s live s' live

pub data Reach (s : PrintAgentService) : PrintAgentService → List ℕ → Type 0 where
  here : Reach s s []
  after :
      {s' s'' : PrintAgentService} {live live' : List ℕ}
      → Reach s s' live
      → Step s' live s'' live'
      → Reach s s'' live'

abbrev pub current : Option ℕ → List ℕ
current none = []
current (some g) = g ∷ []

abbrev Below : ℕ → Option ℕ → Type 0
Below n none = Unit {0}
Below n (some g) = g < n

-- The groups that run on are the one that the service can cancel, or none.
pub record IsSingle (s : PrintAgentService) (live : List ℕ) : Type 0 where
  pub one : live ≡ current s.cancel
  pub waits : s.done ≡ s.cancel
  pub numbered : Below s.next_group s.cancel
  pub idle : s.cancel ≡ none → s.status.running ≡ false

cancel-current : (g : Option ℕ) → cancel_group g (current g) ≡ []
cancel-current none = refl
cancel-current (some g) = ground arith

start_locked-IsSingle :
    (s : PrintAgentService) (cfg : PrintAgentSettings) (live : List ℕ)
    → s.cancel ≡ none
    → IsSingle s live
    → IsSingle (start_locked s cfg) (with_started s (start_locked s cfg) live)
unfolding start_locked
start_locked-IsSingle s cfg live h i = elim (Bool-cases cfg.enabled) [
  | inl e ↦
      let fresh : (suc s.next_group == s.next_group) ≡ false = ground arith in
      let empty : live ≡ [] = i.one ∙ ap current h in
      rw e (record {
        one = rw fresh (ap (λ l. l ++ s.next_group ∷ []) empty);
        waits = refl;
        numbered = omega arith;
        idle = λ p. absurd (some≢none s.next_group p);
      })
  | inr e ↦ let same : (s.next_group == s.next_group) ≡ true = ground arith in rw (e, same) i
]
  where
    some≢none : (n : ℕ) → some n ≡ none → ⊥
    some≢none n p = cc

detached-IsSingle :
    (s : PrintAgentService) (live : List ℕ) (d : PrintAgentService)
    → d.cancel ≡ none
    → d.done ≡ none
    → d.status.running ≡ false
    → IsSingle s live
    → IsSingle d (cancel_group s.cancel live)
detached-IsSingle s live d c w r i = record {
  one =
      subst (λ l. cancel_group s.cancel l ≡ current d.cancel) (sym i.one)
        (cancel-current s.cancel ∙ ap current (sym c));
  waits = w ∙ sym c;
  numbered = subst (λ g. Below d.next_group g) (sym c) tt;
  idle = λ p. r;
}

-- What an update that does not panic leaves while it waits.
bind-ok :
    (r : Result (Option ℕ)) (f : Option ℕ → PrintAgentService) (d : PrintAgentService)
    → (r >>= λ x. ok (f x)) ≡ ok d
    → (x : Option ℕ) × (f x ≡ d)
bind-ok (ok x) f d h = (x, ok-injective (f x) d h)
  where
    ok-injective : (a b : PrintAgentService) → ok a ≡ ok b → a ≡ b
    ok-injective a b p = cc
bind-ok (err e) f d h = absurd (distinct e d h)
  where
    distinct : (e : Error) (b : PrintAgentService) → err e ≡ ok b → ⊥
    distinct e b p = cc
bind-ok panic f d h = absurd (distinct d h)
  where
    distinct : (b : PrintAgentService) → panic ≡ ok b → ⊥
    distinct b p = cc

pub update_begin-configured :
    (s d : PrintAgentService) (given : PrintAgentSettings)
    → update_begin s given ≡ ok d
    → (x : Option ℕ) × (configured s (normalize_agent_cfg given) x ≡ d)
unfolding update_begin
update_begin-configured s d given h =
    bind-ok (make_chan (normalize_agent_cfg given).max_concurrent_jobs)
      (λ x. configured s (normalize_agent_cfg given) x) d h

configured-IsSingle :
    (s : PrintAgentService) (live : List ℕ) (cfg : PrintAgentSettings) (x : Option ℕ)
    → IsSingle s live
    → IsSingle (configured s cfg x) (cancel_group s.cancel live)
unfolding configured detach
configured-IsSingle s live cfg x i = detached-IsSingle s live (configured s cfg x) refl refl refl i

-- An update that waits too long starts nothing.
update_finish-IsSingle :
    (late : Option Error) (d : PrintAgentService) (given : PrintAgentSettings) (live : List ℕ)
    → d.cancel ≡ none
    → IsSingle d live
    → IsSingle (update_finish late d given) (with_started d (update_finish late d given) live)
update_finish-IsSingle (some e) d given live c i =
    let same : (d.next_group == d.next_group) ≡ true = ground arith in rw same i
update_finish-IsSingle none d given live c i =
    start_locked-IsSingle d (normalize_agent_cfg given) live c i

configured-cancel :
    (s : PrintAgentService) (cfg : PrintAgentSettings) (x : Option ℕ)
    → (configured s cfg x).cancel ≡ none
unfolding configured detach
configured-cancel s cfg x = refl

idle-IsSingle :
    (s : PrintAgentService) (live : List ℕ)
    → IsSingle s live
    → IsSingle (record s { status = record s.status { running = false; active_jobs = 0 } }) live
idle-IsSingle s live i = record {
  one = i.one;
  waits = i.waits;
  numbered = i.numbered;
  idle = λ p. refl;
}

group_ended-IsSingle :
    (s : PrintAgentService) (live : List ℕ) (g : ℕ)
    → IsSingle s live
    → IsSingle (group_ended s g) live
unfolding group_ended
group_ended-IsSingle s live g i = elim (Bool-cases (is_group s.done g)) [
  | inl e ↦ rw e (idle-IsSingle s live i)
  | inr e ↦ rw e i
]

Step-IsSingle :
    {s s' : PrintAgentService} {live live' : List ℕ}
    → Step s live s' live'
    → IsSingle s live
    → IsSingle s' live'
unfolding start shutdown detach
Step-IsSingle (starts s live h) i = start_locked-IsSingle s s.cfg live h i
Step-IsSingle (shuts_down s live waits) i = detached-IsSingle s live (detach s) refl refl refl i
Step-IsSingle (updates s d live given late h) i =
    let c = update_begin-configured s d given h in
    let cfg : PrintAgentSettings = normalize_agent_cfg given in
    update_finish-IsSingle late d given (cancel_group s.cancel live)
      (subst (λ x. x.cancel ≡ none) c.1 (configured-cancel s cfg c.0))
      (subst (λ x. IsSingle x (cancel_group s.cancel live)) c.1
        (configured-IsSingle s live cfg c.0 i))
Step-IsSingle (ends s live g) i = group_ended-IsSingle s live g i
Step-IsSingle (works s s' live c w n r) i = record {
  one = i.one ∙ ap current (sym c);
  waits = w ∙ i.waits ∙ sym c;
  numbered =
      subst (λ k. Below k s'.cancel) (sym n) (subst (λ g. Below s.next_group g) (sym c) i.numbered);
  idle = λ p. r ∙ i.idle (sym c ∙ p);
}

pub new_print_agent_service-fresh :
    (cfg : PrintAgentSettings) (s : PrintAgentService)
    → new_print_agent_service cfg ≡ ok s
    → (x : Option ℕ) × (fresh_service (normalize_agent_cfg cfg) x ≡ s)
unfolding new_print_agent_service
new_print_agent_service-fresh cfg s h =
    bind-ok (make_chan (normalize_agent_cfg cfg).max_concurrent_jobs)
      (λ x. fresh_service (normalize_agent_cfg cfg) x) s h

new_print_agent_service-IsSingle :
    (cfg : PrintAgentSettings) (s : PrintAgentService)
    → new_print_agent_service cfg ≡ ok s
    → IsSingle s []
new_print_agent_service-IsSingle cfg s h =
    let c = new_print_agent_service-fresh cfg s h in
    subst (λ x. IsSingle x []) c.1
      (record { one = refl; waits = refl; numbered = tt; idle = λ p. refl })

-- While Start runs only where no group can be canceled, and updates and shutdowns come one after
-- another, the workers that run on are those of the one group that the service can cancel, or
-- none, in which case its status does not say that it runs.
pub Reach-IsSingle :
    (cfg : PrintAgentSettings) (first s : PrintAgentService) (live : List ℕ)
    → new_print_agent_service cfg ≡ ok first
    → Reach first s live
    → IsSingle s live
Reach-IsSingle cfg first s live h r = along r
  where
    along : {s' : PrintAgentService} {l : List ℕ} → Reach first s' l → IsSingle s' l
    along here = new_print_agent_service-IsSingle cfg first h
    along (after r' step) = Step-IsSingle step (along r')

start_locked-both :
    (e : PrintAgentService) (a b : PrintAgentSettings)
    → a.enabled ≡ true
    → b.enabled ≡ true
    → (with_started
          (start_locked e a)
          (start_locked (start_locked e a) b)
          (with_started e (start_locked e a) [])
        ≡ e.next_group ∷ suc e.next_group ∷ [])
      × ((start_locked (start_locked e a) b).cancel ≡ some (suc e.next_group))
unfolding start_locked
start_locked-both e a b p q =
    let one : (suc e.next_group == e.next_group) ≡ false = ground arith in
    let two : (suc (suc e.next_group) == suc e.next_group) ≡ false = ground arith in
    (rw (p, q, one, two) refl, rw (p, q) refl)

configured-next_group :
    (s : PrintAgentService) (cfg : PrintAgentSettings) (x : Option ℕ)
    → (configured s cfg x).next_group ≡ s.next_group
unfolding configured detach
configured-next_group s cfg x = refl

-- Where two updates overlap, each up to its wait before either goes on, both start a group, and
-- the service can cancel only the second of them: two groups of workers run on.
pub update_begin-overlaps :
    (s d e : PrintAgentService) (a b : PrintAgentSettings)
    → update_begin s a ≡ ok d
    → update_begin d b ≡ ok e
    → a.enabled ≡ true
    → b.enabled ≡ true
    → (with_started (update_finish none e a) (update_finish none (update_finish none e a) b) (
          with_started e
            (update_finish none e a)
            (cancel_group d.cancel (cancel_group s.cancel (current s.cancel))))
        ≡ s.next_group ∷ suc s.next_group ∷ [])
      × ((update_finish none (update_finish none e a) b).cancel ≡ some (suc s.next_group))
unfolding normalize_agent_cfg
update_begin-overlaps s d e a b h k p q =
    let c = update_begin-configured s d a h in
    let f = update_begin-configured d e b k in
    let free : d.cancel ≡ none =
      subst (λ x. x.cancel ≡ none) c.1 (configured-cancel s (normalize_agent_cfg a) c.0) in
    let next : e.next_group ≡ s.next_group =
      subst (λ x. x.next_group ≡ d.next_group) f.1
        (configured-next_group d (normalize_agent_cfg b) f.0)
      ∙ subst (λ x. x.next_group ≡ s.next_group) c.1
          (configured-next_group s (normalize_agent_cfg a) c.0) in
    let both = start_locked-both e (normalize_agent_cfg a) (normalize_agent_cfg b) p q in
    rw (cancel-current s.cancel, free, ← next) both
