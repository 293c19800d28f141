-- ===== src/Pairs/Tests.antt =====
-- Both processes print, one after the other.
use computer_science_notes.Base.{◌≡◌, refl, [], ◌∷◌, arith}
use computer_science_notes.Pairs.Print.{
  print, System, parent_prints, child_prints, Reach, start, later,
}
use computer_science_notes.Pairs.Order.{IsPaired, letters_in_pairs}

abbrev both_printed : (s : System) × Reach s × (s.terminal.shown ≡ 99 ∷ 99 ∷ 112 ∷ 112 ∷ [])
unfolding print
both_printed =
    let r1 = later start (child_prints refl) in
    let r2 = later r1 (child_prints refl) in
    let r3 = later r2 (child_prints refl) in
    let r4 = later r3 (child_prints refl) in
    let r5 = later r4 (parent_prints refl) in
    let r6 = later r5 (parent_prints refl) in
    let r7 = later r6 (parent_prints refl) in
    let r8 = later r7 (parent_prints refl) in (_, r8, refl)

letters_in_pairs_example : IsPaired (both_printed.0).terminal.shown
unfolding both_printed
letters_in_pairs_example = letters_in_pairs both_printed.1 (omega arith)
