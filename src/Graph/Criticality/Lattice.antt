-- ===== src/Graph/Criticality/Lattice.antt =====
-- `maxCriticality` is a maximum: the normalised criticalities are the five words of a chain.
use kbeacon.Prelude.{ℕ, ◌≡◌, refl, sym, ap, ◌∙◌, arith, ltb, if◌then◌else◌}
use kbeacon.Text.{Text, ◌==◌, ==_iff, to_lower, trim_space}
use kbeacon.Graph.Criticality.{
  low as low_text, medium as medium_text, high as high_text, critical as critical_text,
  unknown as unknown_text, known_or_unknown, normalize_criticality, rank_of, criticality_rank,
  max_criticality,
}

-- The five criticalities, in order.
pub data Level : Type 0 where
  unknown low medium high critical : Level

abbrev pub word : Level → Text
word Level.unknown = unknown_text
word Level.low = low_text
word Level.medium = medium_text
word Level.high = high_text
word Level.critical = critical_text

abbrev pub rank : Level → ℕ
rank Level.unknown = 0
rank Level.low = 1
rank Level.medium = 2
rank Level.high = 3
rank Level.critical = 4

level_of : Text → Level
level_of v =
    if v == low_text
    then Level.low
    else if v == medium_text
    then Level.medium
    else if v == high_text
    then Level.high
    else if v == critical_text
    then Level.critical
    else Level.unknown

word-level_of : (v : Text) → known_or_unknown v ≡ word (level_of v)
unfolding known_or_unknown level_of
word-level_of v =
    ground
      (arith, ==_iff v low_text, ==_iff v medium_text, ==_iff v high_text, ==_iff v critical_text)

rank_of-word : (l : Level) → rank_of (word l) ≡ rank l
unfolding rank_of ◌==◌
rank_of-word Level.unknown = refl
rank_of-word Level.low = refl
rank_of-word Level.medium = refl
rank_of-word Level.high = refl
rank_of-word Level.critical = refl

-- The level that a criticality text stands for.
pub level : Text → Level
level value = level_of (to_lower (trim_space value))

pub normalize-word : (value : Text) → normalize_criticality value ≡ word (level value)
unfolding normalize_criticality level
normalize-word value = word-level_of (to_lower (trim_space value))

pub criticality_rank-level : (value : Text) → criticality_rank value ≡ rank (level value)
unfolding criticality_rank
criticality_rank-level value = ap rank_of (normalize-word value) ∙ rank_of-word (level value)

abbrev pub max_level : Level → Level → Level
max_level a b = if ltb (rank a) (rank b) then b else a

pub max_criticality-word : (a b : Text) → max_criticality a b ≡ word (max_level (level a) (level b))
unfolding max_criticality
max_criticality-word a b =
    ground (
      arith,
      normalize-word a,
      normalize-word b,
      criticality_rank-level a,
      criticality_rank-level b,
    )

level-word : (l : Level) → level (word l) ≡ l
unfolding level level_of ◌==◌ to_lower trim_space
level-word Level.unknown = refl
level-word Level.low = refl
level-word Level.medium = refl
level-word Level.high = refl
level-word Level.critical = refl

pub level-max_criticality :
    (a b : Text) → level (max_criticality a b) ≡ max_level (level a) (level b)
level-max_criticality a b = rw max_criticality-word (level-word _)

pub level-normalize : (a : Text) → level (normalize_criticality a) ≡ level a
level-normalize a = rw normalize-word (level-word _)

max_level_assoc : (a b c : Level) → max_level (max_level a b) c ≡ max_level a (max_level b c)
max_level_assoc a b c = ground arith

max_level_comm : (a b : Level) → max_level a b ≡ max_level b a
max_level_comm a b = ground arith

-- The maximum of criticalities is associative.
max_criticality_assoc :
    (a b c : Text)
    → max_criticality (max_criticality a b) c ≡ max_criticality a (max_criticality b c)
max_criticality_assoc a b c =
    rw (max_criticality-word, level-max_criticality)
      (sym (
        max_criticality-word a (max_criticality b c)
        ∙ ap (λ l. word (max_level (level a) l)) (level-max_criticality b c)
        ∙ ap word (sym (max_level_assoc (level a) (level b) (level c)))))

pub max_criticality_comm : (a b : Text) → max_criticality a b ≡ max_criticality b a
max_criticality_comm a b =
    max_criticality-word a b
    ∙ ap word (max_level_comm (level a) (level b))
    ∙ sym (max_criticality-word b a)

-- Two edges may be taken in either order.
pub max_criticality_right_comm :
    (a b c : Text)
    → max_criticality (max_criticality a b) c ≡ max_criticality (max_criticality a c) b
max_criticality_right_comm a b c =
    max_criticality_assoc a b c
    ∙ ap (max_criticality a) (max_criticality_comm b c)
    ∙ sym (max_criticality_assoc a c b)
