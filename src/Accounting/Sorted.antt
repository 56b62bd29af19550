-- ===== src/Accounting/Sorted.antt =====
-- The stable sort of events by their timestamp, and the events after a cursor.
use self_evaluating_trading.Common.{
  ℕ, ◌≤◌, ◌<◌, ◌≡◌, refl, ap, ◌∙◌, List, [], ◌∷◌, ◌++◌, arith, All,
}
use self_evaluating_trading.Events.{PaperTradeEvent}
use self_evaluating_trading.Accounting.{place, sort_events, since}

module _ {F : Type 0} (c : ℕ) where
  abbrev pub Before : List (PaperTradeEvent F) → Type 0
  Before = All (λ e. e.timestamp_ms ≤ c)

  abbrev pub After : List (PaperTradeEvent F) → Type 0
  After = All (λ e. c < e.timestamp_ms)

  After-place :
      (e : PaperTradeEvent F) (es : List (PaperTradeEvent F))
      → c < e.timestamp_ms
      → After es
      → After (place e es)
  unfolding place
  After-place e [] h hs = (h, tt)
  After-place e (d ∷ ds) h (k, ks) = ground (arith, After-place e ds h ks)

  After-sort_events : (es : List (PaperTradeEvent F)) → After es → After (sort_events es)
  unfolding sort_events
  After-sort_events [] h = tt
  After-sort_events (e ∷ es) (h, hs) = After-place e (sort_events es) h (After-sort_events es hs)

  Before-place :
      (e : PaperTradeEvent F) (es : List (PaperTradeEvent F))
      → e.timestamp_ms ≤ c
      → Before es
      → Before (place e es)
  unfolding place
  Before-place e [] h hs = (h, tt)
  Before-place e (d ∷ ds) h (k, ks) = ground (arith, Before-place e ds h ks)

  Before-sort_events : (es : List (PaperTradeEvent F)) → Before es → Before (sort_events es)
  unfolding sort_events
  Before-sort_events [] h = tt
  Before-sort_events (e ∷ es) (h, hs) = Before-place e (sort_events es) h (Before-sort_events es hs)

  place-append :
      (e : PaperTradeEvent F) (ds es : List (PaperTradeEvent F))
      → e.timestamp_ms ≤ c
      → After es
      → place e (ds ++ es) ≡ place e ds ++ es
  unfolding place
  place-append e [] [] h k = refl
  place-append e [] (d ∷ es) h (k, ks) = ground arith
  place-append e (d ∷ ds) es h k = ground (arith, place-append e ds es h k)

  -- Events after the cursor are sorted behind those before it.
  pub sort_events-append :
      (old new : List (PaperTradeEvent F))
      → Before old
      → After new
      → sort_events (old ++ new) ≡ sort_events old ++ sort_events new
  unfolding sort_events
  sort_events-append [] new h k = refl
  sort_events-append (e ∷ old) new (h, hs) k =
      ap (place e) (sort_events-append old new hs k)
      ∙ place-append e (sort_events old) (sort_events new) h (After-sort_events new k)

  since-After : (es : List (PaperTradeEvent F)) → After es → since c es ≡ es
  unfolding since
  since-After [] h = refl
  since-After (e ∷ es) (h, hs) = ground (arith, since-After es hs)

  since-append :
      (old new : List (PaperTradeEvent F)) → Before old → After new → since c (old ++ new) ≡ new
  unfolding since
  since-append [] new h k = since-After new k
  since-append (e ∷ old) new (h, hs) k = ground (arith, since-append old new hs k)

  -- Of the sorted events, those after the cursor are the later ones, sorted.
  pub since-sort_events :
      (old new : List (PaperTradeEvent F))
      → Before old
      → After new
      → since c (sort_events (old ++ new)) ≡ sort_events new
  since-sort_events old new h k =
      ap (since c) (sort_events-append old new h k)
      ∙ since-append (sort_events old) (sort_events new) (Before-sort_events old h)
          (After-sort_events new k)
