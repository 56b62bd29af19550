-- ===== src/Connection/Attempts.antt =====
-- How the attempts to connect end (src/application/services/connection_supervisor.py).
use mathlib.Core.List.{append-nil}
use self_evaluating_trading.Common.{
  ℕ, zero, suc, ◌+◌, ◌-◌, ◌^◌, ◌≤◌, ◌<◌, ◌≡◌, refl, ◌∙◌, subst, Bool, true, false, ltb, Option,
  none, some, List, [], ◌∷◌, ◌++◌, arith, is_some, Option-cases, Bool-cases, ◌⊎◌, inl, inr,
}
use self_evaluating_trading.Floating.{Floating, of_int, min}
use self_evaluating_trading.Connection.{
  SupervisorConfig, Act, Ending, delay_for, waits, waited, after_connect, exhausted, tried,
  try_from, run_once_until_connected,
}

module _ {E : Type 0} where
  -- What the callback raises, where it is run.
  abbrev pub ending_after : ℕ → Option (Option E) → Ending E
  ending_after zero o = Ending.connected
  ending_after (suc i) none = Ending.connected
  ending_after (suc i) (some none) = Ending.connected
  ending_after (suc i) (some (some e)) = Ending.raised e

module _ {E F : Type 0} where
  -- The callback, where there is one and an attempt has failed before.
  abbrev pub callbacks : ℕ → Option (Option E) → List (Act F)
  callbacks zero o = []
  callbacks (suc i) none = []
  callbacks (suc i) (some o) = Act.reconnected ∷ []

  connected_after :
      (i n : ℕ) (acts : List (Act F)) (o : Option (Option E))
      → after_connect (ltb 0 i) o n acts
        ≡ record { ending = ending_after i o; attempts = n; acts = acts ++ callbacks i o }
  unfolding after_connect
  connected_after zero n acts o = rw (append-nil acts) refl
  connected_after (suc i) n acts o =
      let more : ltb 0 (suc i) ≡ true = ground arith in rw more (by_hook o)
    where
      by_hook :
          (o : Option (Option E))
          → after_connect true o n acts ≡ record {
            ending = ending_after (suc i) o;
            attempts = n;
            acts = acts ++ callbacks (suc i) o;
          }
      by_hook none = rw (append-nil acts) refl
      by_hook (some none) = refl
      by_hook (some (some e)) = refl

module _ {E F : Type 0} ⦃fl : Floating F⦄ (uniform : ℕ → F → F → F) (config : SupervisorConfig F)
    (connect : ℕ → Option E) (on_reconnect : Option (Option E)) where
  -- The wait after an attempt: the doubled backoff with what is drawn, both cut to the maximum.
  abbrev pub backoff : ℕ → F
  backoff n =
      let raw = min (fl.mul config.initial_backoff (of_int (2 ^ n))) config.max_backoff in
      min (fl.add raw (uniform n (of_int 0) (fl.mul raw (fl.lit 1 1)))) config.max_backoff

  -- The waits after the first n attempts.
  abbrev pub sleeps : ℕ → List (Act F)
  sleeps zero = []
  sleeps (suc n) = sleeps n ++ (Act.sleep (backoff n) ∷ [])

  -- The attempts before the n-th one fail.
  abbrev pub IsRefused : ℕ → Type 0
  IsRefused n = (j : ℕ) → j < n → is_some (connect j) ≡ true

  failure : (n j : ℕ) → IsRefused n → j < n → (e : E) × (connect j ≡ some e)
  failure n j f h = elim (Option-cases (connect j)) [
    | inl q ↦ absurd (ground (arith, f j h))
    | inr s ↦ s
  ]

  wait_before_last :
      (j : ℕ)
      → suc j < config.max_attempts
      → j < 1024
      → waits uniform config j ≡ some (Act.sleep (backoff j) ∷ [])
  unfolding waits delay_for
  wait_before_last j h l =
      let more : ltb j (config.max_attempts - 1) ≡ true = ground arith in
      let small : ltb j 1024 ≡ true = ground arith in rw (more, small) refl

  next_try :
      (r k : ℕ) (e : E) (last : Option E) (b : Bool) (a : ℕ)
      → connect k ≡ some e
      → suc k < config.max_attempts
      → k < 1024
      → try_from uniform config connect on_reconnect (suc r) k last b a (sleeps k)
        ≡ try_from uniform config connect on_reconnect r
            (suc k)
            (some e)
            true
            (suc k)
            (sleeps (suc k))
  unfolding try_from tried waited
  next_try r k e last b a q h l = rw (q, wait_before_last k h l) refl

  lt-or_le : (k i : ℕ) → (k < i) ⊎ (i ≤ k)
  lt-or_le k i = elim (Bool-cases (ltb k i)) [
    | inl h ↦ inl (ground arith)
    | inr h ↦ inr (ground arith)
  ]

  k_lt : (i k : ℕ) (e : E) → connect k ≡ some e → connect i ≡ none → k ≤ i → k < i
  k_lt i k e q c l = elim (lt-or_le k i) [
    | inl h ↦ h
    | inr h ↦ let same : i ≡ k = omega arith in absurd (ground (arith, c, q, same))
  ]

  try_from_connects :
      (r k i : ℕ) (last : Option E) (b : Bool) (a : ℕ)
      → IsRefused i
      → connect i ≡ none
      → k ≤ i
      → i < k + r
      → i ≤ 1024
      → k + r ≡ config.max_attempts
      → b ≡ ltb 0 k
      → try_from uniform config connect on_reconnect r k last b a (sleeps k)
        ≡ after_connect (ltb 0 i) on_reconnect (suc i) (sleeps i)
  unfolding try_from tried
  try_from_connects zero k i last b a f c l u t m q = absurd (omega arith)
  try_from_connects (suc r) k i last b a f c l u t m q = elim (Option-cases (connect k)) [
    | inl now ↦
        let same : i ≡ k = elim (lt-or_le k i) [
          | inl h ↦ absurd (ground (arith, f k h))
          | inr h ↦ omega arith
        ] in
        rw (same, now, q) refl
    | inr (e, failed) ↦
        let before : k < i = k_lt i k e failed c l in
        next_try r k e last b a failed (omega arith) (omega arith)
        ∙ try_from_connects r (suc k) i (some e) true (suc k) f c before (omega arith) t
            (omega arith) (ground arith)
  ]

  try_from_fails :
      (r k : ℕ) (last : Option E) (b : Bool) (a : ℕ) (e : E)
      → IsRefused config.max_attempts
      → connect (config.max_attempts - 1) ≡ some e
      → suc (k + r) ≡ config.max_attempts
      → config.max_attempts ≤ 1025
      → try_from uniform config connect on_reconnect (suc r) k last b a (sleeps k) ≡ record {
        ending = Ending.raised e;
        attempts = config.max_attempts;
        acts = sleeps (config.max_attempts - 1);
      }
  unfolding try_from tried waited exhausted waits
  try_from_fails zero k last b a e f q m u =
      let one : config.max_attempts - 1 ≡ k = omega arith in
      let whole : config.max_attempts ≡ suc k = omega arith in
      let now : connect k ≡ some e = subst (λ x. connect x ≡ some e) one q in
      let none_left : ltb k k ≡ false = ground arith in
      rw (one, now, none_left, append-nil (sleeps k), whole) refl
  try_from_fails (suc r) k last b a e f q m u =
      let (g, failed) = failure config.max_attempts k f (omega arith) in
      next_try (suc r) k g last b a failed (omega arith) (omega arith)
      ∙ try_from_fails r (suc k) (some g) true (suc k) e f q (omega arith) u

  -- If one of the attempts that are allowed succeeds, and no more than 1024 fail before it, the method ends with
  -- the first of them that does, whatever an earlier call left: `attempts` is its number, it has waited once
  -- after each failure, by the doubled backoff with what is drawn, cut to the maximum, has then run the callback
  -- exactly if there is one and an attempt has failed, and ends connected unless that callback raises.
  pub run_connects :
      (i attempts : ℕ)
      → i < config.max_attempts
      → IsRefused i
      → connect i ≡ none
      → i ≤ 1024
      → run_once_until_connected uniform config connect on_reconnect attempts ≡ record {
        ending = ending_after i on_reconnect;
        attempts = suc i;
        acts = sleeps i ++ callbacks i on_reconnect;
      }
  unfolding run_once_until_connected
  run_connects i attempts h f c t =
      try_from_connects config.max_attempts 0 i none false attempts f c (omega arith) (omega arith)
        t (omega arith) refl
      ∙ connected_after i (suc i) (sleeps i) on_reconnect

  -- If all attempts that are allowed fail, and at least one and at most 1025 are, the method raises the error of
  -- the last one after as many attempts as are allowed, with a wait between each two of them and none after
  -- the last.
  pub run_fails :
      (attempts : ℕ) (e : E)
      → IsRefused config.max_attempts
      → connect (config.max_attempts - 1) ≡ some e
      → 0 < config.max_attempts
      → config.max_attempts ≤ 1025
      → run_once_until_connected uniform config connect on_reconnect attempts ≡ record {
        ending = Ending.raised e;
        attempts = config.max_attempts;
        acts = sleeps (config.max_attempts - 1);
      }
  unfolding run_once_until_connected
  run_fails attempts e f q h u =
      let whole : suc (config.max_attempts - 1) ≡ config.max_attempts = omega arith in
      subst
        (λ m. try_from uniform config connect on_reconnect m 0 none false attempts [] ≡ record {
          ending = Ending.raised e;
          attempts = config.max_attempts;
          acts = sleeps (config.max_attempts - 1);
        })
        whole (try_from_fails (config.max_attempts - 1) 0 none false attempts e f q (omega arith) u)
