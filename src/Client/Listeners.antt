-- ===== src/Client/Listeners.antt =====
-- client.ts: the set of listeners, by numbers that stand for the functions, in the order in which `notify`
-- calls them.
use msclaude_connector.Prelude.{
  ℕ, ◌≡◌, false, not, List, [], ◌∷◌, ◌++◌, arith, any, keep, ◌==◌, if◌then◌else◌,
}

-- `subscribe`: a function that is there already is called once.
unfoldable pub subscribe : ℕ → List ℕ → List ℕ
subscribe f listeners = if any (λ g. g == f) listeners then listeners else listeners ++ f ∷ []

-- What `subscribe` returns.
unfoldable pub unsubscribe : ℕ → List ℕ → List ℕ
unsubscribe f = keep (λ g. not (g == f))

-- A function that is taken off is called no more, and any other is called as before.
unsubscribe_lem :
    (f g : ℕ) (listeners : List ℕ)
    → any (λ h. h == g) (unsubscribe f listeners)
      ≡ (if f == g then false else any (λ h. h == g) listeners)
unfolding unsubscribe
unsubscribe_lem f g [] = ground arith
unsubscribe_lem f g (h ∷ listeners) = ground (arith, unsubscribe_lem f g listeners)
