-- ===== src/Mobile/Saver.antt =====
-- mobileClient.ts: the listener of `bootstrap` that saves the last sequence number, and its timer.
use msclaude_connector.Prelude.{
  ℕ, ◌<◌, ◌≡◌, refl, sym, List, [], ◌∷◌, ◌++◌, Option, none, some, arith, leb, if◌then◌else◌,
  if_cases, option_cases,
}

-- The number that waits for the timer, where the timer runs; the number saved last; and what was
-- written, oldest first.
pub record Saver : Type 0 where
  pub waiting : Option ℕ
  pub last_saved : ℕ
  pub written : List ℕ

unfoldable pub new_saver : ℕ → Saver
new_saver n = record { waiting = none; last_saved = n; written = [] }

-- The listener, where the session's number is `seq`: it starts the timer anew.
unfoldable pub on_notify : ℕ → Saver → Saver
on_notify seq s = if leb seq s.last_saved then s else record s { waiting = some seq }

-- The timer, where it runs.
unfoldable pub on_timer : Saver → Saver
on_timer s = elim s.waiting [
  | none ↦ s
  | some seq ↦ record { waiting = none; last_saved = seq; written = s.written ++ seq ∷ [] }
]

pub data Tick : Type 0 where
  notified : ℕ → Tick
  elapsed : Tick

abbrev pub tick : Tick → Saver → Saver
unfolding on_notify on_timer
tick (notified seq) s = on_notify seq s
tick elapsed s = on_timer s

unfoldable pub ticks : Saver → List Tick → Saver
unfolding tick
ticks s [] = s
ticks s (t ∷ rest) = ticks (tick t s) rest

-- Each number is larger than the one before, the first one than `n`.
abbrev pub Rises : ℕ → List ℕ → Type 0
Rises n [] = Unit
Rises n (x ∷ xs) = (n < x) × Rises x xs

-- The last of the numbers, or `n`.
abbrev pub last_of : ℕ → List ℕ → ℕ
last_of n [] = n
last_of n (x ∷ xs) = last_of x xs

Rises-append : (n x : ℕ) (xs : List ℕ) → Rises n xs → last_of n xs < x → Rises n (xs ++ x ∷ [])
Rises-append n x [] r h = (h, tt)
Rises-append n x (y ∷ xs) r h = (r.0, Rises-append y x xs r.1 h)

last_of-append : (n x : ℕ) (xs : List ℕ) → last_of n (xs ++ x ∷ []) ≡ x
last_of-append n x [] = refl
last_of-append n x (y ∷ xs) = last_of-append y x xs

-- What waits, if anything, is larger than `n`.
abbrev pub Above : ℕ → Option ℕ → Type 0
Above n none = Unit
Above n (some seq) = n < seq

Above-some : (n seq : ℕ) (waiting : Option ℕ) → waiting ≡ some seq → Above n waiting → n < seq
Above-some n seq waiting e h = ground (arith, e, h)

-- What is written rises from `n` up to the number saved last, and what waits is larger still.
pub record IsRising (n : ℕ) (s : Saver) : Type 0 where
  pub rises : Rises n s.written
  pub saved : s.last_saved ≡ last_of n s.written
  pub waits : Above s.last_saved s.waiting

tick-IsRising : (n : ℕ) (t : Tick) (s : Saver) → IsRising n s → IsRising n (tick t s)
unfolding tick on_notify on_timer
tick-IsRising n (notified seq) s h =
    if_cases (IsRising n) (leb seq s.last_saved) _ _ (λ _. h)
      (λ e. record { rises = h.rises; saved = h.saved; waits = ground (arith, e) })
tick-IsRising n elapsed s h =
    option_cases (IsRising n) s.waiting _ _ (λ _. h)
      λ seq e. record {
        rises =
            Rises-append n seq s.written h.rises
              (ground (arith, h.saved, Above-some s.last_saved seq s.waiting e h.waits));
        saved = sym (last_of-append n seq s.written);
        waits = tt;
      }

-- In any history of the listener and its timer, from the loaded number on, the numbers that are saved
-- rise strictly: a session that starts afresh with smaller numbers is not saved until it passes them.
pub ticks-IsRising : (n : ℕ) (h : List Tick) → IsRising n (ticks (new_saver n) h)
unfolding new_saver ticks
ticks-IsRising n h = from h (new_saver n) (record { rises = tt; saved = refl; waits = tt })
  where
    from : (h : List Tick) (s : Saver) → IsRising n s → IsRising n (ticks s h)
    from [] s r = r
    from (t ∷ rest) s r = from rest (tick t s) (tick-IsRising n t s r)
