-- ===== src/Samples/Draws.antt =====
-- Ids as texts of ever greater length, so that the ids drawn for two alerts differ.
use Prim.Native.String.{◌∷◌, count}
use Prim.Native.String.count
use flood_monitoring_and_man.Common.{
  ℕ, zero, suc, ◌≤◌, String, false, ◌≡◌, refl, arith, ◌==◌, string_eq, eq_iff, Bool-cases, inl, inr,
  ap, sym, ◌∙◌,
}
use flood_monitoring_and_man.RuleEngine.Models.{Draw}

abbrev tally : ℕ → String
tally zero = ""
tally (suc n) = "a" ∷ tally n

count-tally : (n : ℕ) → count (tally n) ≡ n
count-tally zero = refl
count-tally (suc n) = count.cons "a" (tally n) ∙ ap suc (count-tally n)

-- The n-th alert has an id of n letters.
abbrev pub tallies : ℕ → Draw
tallies n = record { uuid = tally n; now = "12:00" }

pub tallies_apart : (j k : ℕ) → suc j ≤ k → ((tallies j).uuid == (tallies k).uuid) ≡ false
tallies_apart j k less = elim (Bool-cases (tally j == tally k)) [
  | inl same ↦
      let equal : j ≡ k =
        sym (count-tally j) ∙ ap count ((eq_iff (tally j) (tally k)).0 same) ∙ count-tally k in
      absurd (omega (arith, less, equal))
  | inr other ↦ other
]
