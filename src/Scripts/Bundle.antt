-- ===== src/Scripts/Bundle.antt =====
-- clients/scripts/web-build.mjs: what a build leaves in the directory that the host embeds.
use msclaude_connector.Prelude.{
  ◌≡◌, refl, ◌⊎◌, inl, inr, Bool, true, false, [], Option, none, some, Text, codes, if◌then◌else◌,
  if_cases, option_cases,
}
use msclaude_connector.Prelude.Maps.{Map, lookup}

-- The files of a directory, by their paths in it.
abbrev pub Files : Type 0
Files = Map Text

-- `finalDir` and `tmpDir`; `none` where there is none.
pub record Disk : Type 0 where
  pub final : Option Files
  pub tmp : Option Files

-- What the tools and the file system do in one run: whether each tool and each call succeeds, what
-- vite leaves in its output directory, what a removal of the old bundle that throws has left of it, and
-- what a copy that throws has copied by then.
pub record Run : Type 0 where
  pub protocol_built : Bool
  pub types_checked : Bool
  pub tmp_removed : Bool
  pub vite_built : Bool
  pub vite_output : Files
  pub final_removed : Bool
  pub final_left : Files
  pub final_made : Bool
  pub copied : Option Files
  pub cleaned : Bool

-- Where a run ends: at its last line or at a throw.
pub data End : Type 0 where
  done : End
  tool_failed no_index : End
  disk_failed swap_failed clean_failed : End

unfoldable pub has_index : Files → Bool
has_index files = elim (lookup (codes "index.html") files) [ none ↦ false | some f ↦ true ]

-- Of `tmpDir` it is not followed what a removal that throws has left.
abbrev pub cleanup : Run → Disk → Disk × End
cleanup r d = if r.cleaned then (record d { tmp = none }, done) else (d, clean_failed)

-- `cpSync(tmpDir, finalDir)` into the directory that has been made.
unfoldable pub copy_bundle : Run → Disk → Disk × End
copy_bundle r d = elim r.copied [
  | none ↦ cleanup r (record d { final = d.tmp })
  | some part ↦ (record d { final = some part }, swap_failed)
]

-- `rmSync(finalDir)` and `mkdirSync(finalDir)`
unfoldable pub swap_bundle : Run → Disk → Disk × End
unfolding copy_bundle
swap_bundle r d =
    if r.final_removed
    then if r.final_made
      then copy_bundle r (record d { final = some [] })
      else (record d { final = none }, swap_failed)
    else (record d { final = some r.final_left }, swap_failed)

unfoldable pub vite_build : Run → Disk → Disk × End
unfolding has_index swap_bundle
vite_build r d =
    let d' = record d { tmp = some r.vite_output } in
    if r.vite_built
    then if has_index r.vite_output then swap_bundle r d' else (d', no_index)
    else (d', tool_failed)

-- The script.
unfoldable pub web_build : Run → Disk → Disk × End
unfolding vite_build
web_build r d =
    if r.protocol_built
    then if r.types_checked
      then if r.tmp_removed then vite_build r (record d { tmp = none }) else (d, disk_failed)
      else (d, tool_failed)
    else (d, tool_failed)

-- What a run may leave in `finalDir` where there was `old`, by its end.
pub data Leaves (old : Option Files) (r : Run) : Disk × End → Type 0 where
  -- the whole of the new bundle, with its index
  new_bundle :
      (d : Disk) (e : End)
      → (e ≡ done) ⊎ (e ≡ clean_failed)
      → d.final ≡ some r.vite_output
      → has_index r.vite_output ≡ true
      → Leaves old r (d, e)
  -- the old bundle, after a failure of a tool or of a check
  old_bundle :
      (d : Disk) (e : End)
      → (e ≡ tool_failed) ⊎ ((e ≡ no_index) ⊎ (e ≡ disk_failed))
      → d.final ≡ old
      → Leaves old r (d, e)
  -- a part of either, or nothing, after a failure between the removal and the end of the copy
  part_bundle : (d : Disk) → Leaves old r (d, swap_failed)

module _ (old : Option Files) (r : Run) where
  cleanup-Leaves :
      (d : Disk)
      → d.final ≡ some r.vite_output
      → has_index r.vite_output ≡ true
      → Leaves old r (cleanup r d)
  cleanup-Leaves d new index =
      if_cases (Leaves old r) r.cleaned _ _
        (λ _. new_bundle (record d { tmp = none }) done (inl refl) new index)
        (λ _. new_bundle d clean_failed (inr refl) new index)

  copy_bundle-Leaves :
      (d : Disk)
      → d.tmp ≡ some r.vite_output
      → has_index r.vite_output ≡ true
      → Leaves old r (copy_bundle r d)
  unfolding copy_bundle
  copy_bundle-Leaves d built index =
      option_cases (Leaves old r) r.copied _ _
        (λ _. cleanup-Leaves (record d { final = d.tmp }) built index)
        (λ part _. part_bundle (record d { final = some part }))

  swap_bundle-Leaves :
      (d : Disk)
      → d.tmp ≡ some r.vite_output
      → has_index r.vite_output ≡ true
      → Leaves old r (swap_bundle r d)
  unfolding swap_bundle
  swap_bundle-Leaves d built index =
      if_cases (Leaves old r) r.final_removed _ _
        (λ _.
          if_cases (Leaves old r) r.final_made _ _
            (λ _. copy_bundle-Leaves (record d { final = some [] }) built index)
            (λ _. part_bundle (record d { final = none })))
        (λ _. part_bundle (record d { final = some r.final_left }))

  vite_build-Leaves : (d : Disk) → d.final ≡ old → Leaves old r (vite_build r d)
  unfolding vite_build
  vite_build-Leaves d same =
      let d' = record d { tmp = some r.vite_output } in
      if_cases (Leaves old r) r.vite_built _ _
        (λ _.
          if_cases (Leaves old r) (has_index r.vite_output) _ _
            (λ index. swap_bundle-Leaves d' refl index)
            (λ _. old_bundle d' no_index (inr (inl refl)) same))
        (λ _. old_bundle d' tool_failed (inl refl) same)

-- A build that ends, or fails only in its clean-up, leaves the whole of the new bundle, which has an
-- index; one in which a tool or a check fails leaves the old bundle as it was. A failure between the
-- removal of the old bundle and the end of the copy may leave anything.
pub web_build-Leaves : (r : Run) (d : Disk) → Leaves d.final r (web_build r d)
unfolding web_build
web_build-Leaves r d =
    let P = Leaves d.final r in
    if_cases P r.protocol_built _ _
      (λ _.
        if_cases P r.types_checked _ _
          (λ _.
            if_cases P r.tmp_removed _ _
              (λ _. vite_build-Leaves d.final r (record d { tmp = none }) refl)
              (λ _. old_bundle d disk_failed (inr (inr refl)) refl))
          (λ _. old_bundle d tool_failed (inl refl) refl))
      (λ _. old_bundle d tool_failed (inl refl) refl)
