-- ===== src/Scripts/Allowed.antt =====
-- check-deps.mjs: which packages it lets pass.
use msclaude_connector.Prelude.{
  ℕ, zero, suc, ◌≡◌, refl, sym, ap, ◌∙◌, ◌↔◌, inl, inr, Bool, true, ◌&&◌, List, [], ◌∷◌, ◌++◌, some,
  map, arith, Text, text_eq, text_eq_iff, text_eq_refl, any, keep, All, get_elem?, Bool-cases,
}
use msclaude_connector.Value.{Fields, get}
use msclaude_connector.Value.Template.{to_text}
use msclaude_connector.Scripts.{
  trim, split_lines, is_name, allowed_names, dependency_names, violations_of, violations,
  check_deps,
}

-- Some line of the list, without the white space around it, is the name, and it is neither empty nor
-- a comment.
pub record Listed (lines : List Text) (dep : Text) : Type 0 where
  pub place : ℕ
  pub line : Text
  pub found : get_elem? lines place ≡ some line
  pub trimmed : trim line ≡ dep
  pub meant : is_name dep ≡ true

-- The name is in the set that is made of the lines.
abbrev in_lines : Text → List Text → Bool
in_lines dep lines = any (text_eq dep) (keep is_name (map trim lines))

in_lines-Listed : (dep : Text) (lines : List Text) → in_lines dep lines ≡ true → Listed lines dep
in_lines-Listed dep [] h = absurd cc
in_lines-Listed dep (line ∷ lines) h =
    elim (Bool-cases (is_name (trim line) && text_eq dep (trim line))) [
      | inl here ↦
          let e : dep ≡ trim line = (text_eq_iff dep (trim line)).0 (ground (arith, here)) in
          record {
            place = 0;
            line = line;
            found = refl;
            trimmed = sym e;
            meant = rw e (ground (arith, here));
          }
      | inr other ↦
          let l = in_lines-Listed dep lines (ground (arith, h, other)) in
          record {
            place = suc l.place;
            line = l.line;
            found = l.found;
            trimmed = l.trimmed;
            meant = l.meant;
          }
    ]

Listed-in_lines :
    (dep line : Text) (lines : List Text) (i : ℕ)
    → trim line ≡ dep
    → is_name dep ≡ true
    → get_elem? lines i ≡ some line
    → in_lines dep lines ≡ true
Listed-in_lines dep line [] i t m e = absurd cc
Listed-in_lines dep line (x ∷ lines) zero t m e =
    let same : trim x ≡ dep = ap trim (some_eq e) ∙ t in rw (same, m, text_eq_refl dep) refl
  where
    some_eq : some x ≡ some line → x ≡ line
    some_eq e = ground (arith, e)
Listed-in_lines dep line (x ∷ lines) (suc i) t m e =
    ground (arith, Listed-in_lines dep line lines i t m e)

-- All names of a package, against the set.
module _ (lines : List Text) (owner : Text) where
  none_violates :
      (deps : List Text)
      → violations_of (keep is_name (map trim lines)) owner deps ≡ []
      → All (Listed lines) deps
  unfolding violations_of
  none_violates [] e = tt
  none_violates (dep ∷ deps) e = elim (Bool-cases (in_lines dep lines)) [
    | inl h ↦ (in_lines-Listed dep lines h, none_violates deps (ground (arith, e, h)))
    | inr h ↦ absurd (ground (arith, e, h))
  ]

  all_pass :
      (deps : List Text)
      → All (Listed lines) deps
      → violations_of (keep is_name (map trim lines)) owner deps ≡ []
  unfolding violations_of
  all_pass [] h = refl
  all_pass (dep ∷ deps) h =
      let l = h.0 in
      ground (
        arith,
        all_pass deps h.1,
        Listed-in_lines dep l.line lines l.place l.trimmed l.meant l.found,
      )

append_empty : (xs ys : List Text) → xs ++ ys ≡ [] → (xs ≡ []) × (ys ≡ [])
append_empty [] ys e = (refl, e)
append_empty (x ∷ xs) ys e = absurd cc

-- Every dependency of every package stands on a line of the list.
abbrev pub AllListed : Text → List Fields → Type 0
AllListed file = All (λ (json : Fields).
    All (Listed (split_lines file)) (dependency_names (get "dependencies" json)))

no_violations :
    (file : Text) (packages : List Fields)
    → violations (allowed_names file) packages ≡ []
    → AllListed file packages
unfolding violations allowed_names
no_violations file [] e = tt
no_violations file (json ∷ packages) e =
    let parts = append_empty _ _ e in
    (
      none_violates (split_lines file) (to_text (get "name" json))
          (dependency_names (get "dependencies" json)) parts.0,
      no_violations file packages parts.1,
    )

all_listed :
    (file : Text) (packages : List Fields)
    → AllListed file packages
    → violations (allowed_names file) packages ≡ []
unfolding violations allowed_names
all_listed file [] h = refl
all_listed file (json ∷ packages) h =
    rw
      (all_pass (split_lines file) (to_text (get "name" json))
        (dependency_names (get "dependencies" json)) h.0)
      (all_listed file packages h.1)

-- The check passes just where every production dependency of every package stands, but for white
-- space, on a line of the list that is no comment, and is not the empty name.
pub check_deps_iff :
    (file : Text) (packages : List Fields)
    → (check_deps file packages ≡ true) ↔ AllListed file packages
unfolding check_deps
check_deps_iff file packages = (
  λ passes. no_violations file packages (ground (arith, passes)),
  λ listed. rw (all_listed file packages listed) refl,
)
