-- ===== src/SerialDebug/Log/Pulling.antt =====
-- What a pull of the log gives (PullLogs).
use quantix_cnnector_go.Prelude.{
  ℕ, suc, ◌+◌, ◌-◌, ◌≤◌, ◌^◌, ◌≡◌, refl, ap, sym, ◌∙◌, subst, true, false, List, [], ◌∷◌, arith,
  length, ltb, dec_le,
}
use quantix_cnnector_go.Prelude.Int.{ℤ, pos}
use quantix_cnnector_go.Value.{Libs}
use quantix_cnnector_go.SerialDebug.{LogEntry, SerialDebugService}
use quantix_cnnector_go.SerialDebug.Log.{
  limit_of, is_newer, newer, pull_logs, Numbered, Numbered-length, IsLog,
}

-- A float64 holds the integers up to 2^53.
abbrev pub IsExact : Libs → Type 0
IsExact lib = (k : ℕ) → k ≤ 2 ^ 53 → lib.int_of_float (lib.float_of_int (pos k)) ≡ pos k

module _ (lib : Libs) (exact : IsExact lib) where
  is_newer-ltb : (l : ℕ) (e : LogEntry) → e.seq ≤ 2 ^ 53 → is_newer lib (pos l) e ≡ ltb l e.seq
  is_newer-ltb l e h = rw (exact e.seq h) (ground arith)

  newer_all :
      (k l n : ℕ) (logs : List LogEntry)
      → n ≤ 2 ^ 53
      → l ≤ k
      → Numbered k logs n
      → newer lib (pos l) logs ≡ logs
  unfolding newer
  newer_all k l n [] m h i = refl
  newer_all k l n (e ∷ logs) m h i =
      let top : suc k + length logs ≡ n = Numbered-length (suc k) n logs i.1 in
      let hit : is_newer lib (pos l) e ≡ true =
        is_newer-ltb l e (omega (arith, i.0, top)) ∙ ground (arith, i.0) in
      rw hit (ap (◌∷◌ e) (newer_all (suc k) l n logs m (omega arith) i.1))

  newer-Numbered :
      (k l n : ℕ) (logs : List LogEntry)
      → n ≤ 2 ^ 53
      → k ≤ l
      → l ≤ n
      → Numbered k logs n
      → Numbered l (newer lib (pos l) logs) n
  unfolding newer
  newer-Numbered k l n [] m h t i = omega (arith, i)
  newer-Numbered k l n (e ∷ logs) m h t i =
      let top : suc k + length logs ≡ n = Numbered-length (suc k) n logs i.1 in
      let test : is_newer lib (pos l) e ≡ ltb l e.seq =
        is_newer-ltb l e (omega (arith, i.0, top)) in
      elim (dec_le (suc k) l) [
        | yes below ↦
            let miss : is_newer lib (pos l) e ≡ false = test ∙ ground (arith, i.0) in
            rw miss (newer-Numbered (suc k) l n logs m below t i.1)
        | no above ↦
            let at : k ≡ l = omega arith in
            subst (λ x. Numbered x (newer lib (pos l) (e ∷ logs)) n) at
              (subst (λ x. Numbered k x n) (sym (newer_all k l n (e ∷ logs) m (omega arith) i)) i)
      ]

  -- A user who asks for the entries after number l, which are at most as many as the limit, and still
  -- in the log, gets them all, in their order and without a gap, up to the number to ask from
  -- next: a user who pulls in time misses no entry and gets none twice.
  pub pull_logs-Numbered :
      (s : SerialDebugService) (l : ℕ) (limit : ℤ)
      → IsLog s
      → s.log_seq ≤ 2 ^ 53
      → l ≤ s.log_seq
      → s.log_seq ≤ l + limit_of limit
      → s.log_seq ≤ l + length s.logs
      → Numbered l (pull_logs lib s (pos l) limit).entries (pull_logs lib s (pos l) limit).next_seq
  unfolding pull_logs
  pull_logs-Numbered s l limit i m t few kept =
      let entries : List LogEntry = newer lib (pos l) s.logs in
      let all : Numbered l entries s.log_seq =
        newer-Numbered (s.log_seq - length s.logs) l s.log_seq s.logs m (omega arith) t
          i.numbered in
      let fits : ltb (limit_of limit) (length entries) ≡ false =
        ground (arith, Numbered-length l s.log_seq entries all) in
      rw fits all
