-- ===== src/Bfi/Tests.antt =====
-- Runs of the operations on sets of segments, and instances of their theorems.
use nodebrain_nb.Prelude.{ℕ, ◌≡◌, refl, List, [], ◌∷◌, Bool, true, false, ◌&&◌, ◌||◌, arith}
use nodebrain_nb.Bfi.Segment.{Segment, Bfi, insert_segment, stops, insert_unique, stop_at}
use nodebrain_nb.Bfi.Single.{seg, until_single, conflict, conflict_rows, conflict_row}
use nodebrain_nb.Bfi.Single.Until.{until_single-partition}
use nodebrain_nb.Bfi.Depth.{covers, depth, IsSorted, IsReduced}
use nodebrain_nb.Bfi.Boolean.{
  or_single, or_from, last_end, extend_last, and_single, and_rows, and_row, not_single, not_start,
  not_from, xore_single, xore_from,
}
use nodebrain_nb.Bfi.Boolean.Not.{IsInside, not_single_lem}
use nodebrain_nb.Prelude.Int.{pos}
use nodebrain_nb.Bfi.Index.{
  Entry, simple, index, entries, array_of, array_up_to, add_ranges, slice_to, slice, cut,
  first_place, last_place, add_entry, insert_each,
}
use nodebrain_nb.Bfi.Pair.{and_pair, or_pair, xor_pair, reject}
use nodebrain_nb.Bfi.Pair.Union.{and_pair_lem}
use nodebrain_nb.Bfi.Pair.Xor.{count, AreApart, xor_pair_lem}
use nodebrain_nb.Bfi.Pair.Part.{reject_lem}

abbrev week : List Segment → Bfi
week segments = record { lower = 10; upper = 60; segments = segments }

abbrev early : Bfi
early = week (seg 12 20 ∷ seg 18 25 ∷ seg 40 50 ∷ [])

abbrev late : Bfi
late = week (seg 15 30 ∷ seg 45 55 ∷ [])

early-IsSorted : IsSorted early.segments
early-IsSorted = (
  omega arith,
  (omega arith, (omega arith, tt)),
  (omega arith, (omega arith, tt), (omega arith, tt, tt)),
)

late-IsSorted : IsSorted late.segments
late-IsSorted = (omega arith, (omega arith, tt), (omega arith, tt, tt))

early-IsInside : IsInside early
early-IsInside j e = ground (arith, e)

or_early : (or_single early).segments ≡ seg 12 25 ∷ seg 40 50 ∷ []
unfolding or_single or_from insert_segment last_end extend_last
or_early = refl

and_early : (and_single early).segments ≡ seg 18 20 ∷ []
unfolding and_single and_rows and_row or_single or_from insert_segment
and_early = refl

not_early : (not_single early).segments ≡ seg 10 12 ∷ seg 25 40 ∷ seg 50 60 ∷ []
unfolding not_single not_start not_from or_single or_from insert_segment last_end extend_last
not_early = refl

conflict-early : (conflict early).segments ≡ seg 12 20 ∷ seg 18 25 ∷ []
unfolding conflict conflict_rows conflict_row insert_unique stop_at insert_segment stops
conflict-early = refl

xore_touching :
    (xore_single (week (seg 12 20 ∷ seg 20 25 ∷ []))).segments ≡ seg 12 20 ∷ seg 20 25 ∷ []
unfolding xore_single xore_from insert_segment stops
xore_touching = refl

late-IsApart : AreApart (or_single early).segments (or_single late).segments
unfolding or_single or_from insert_segment last_end extend_last
late-IsApart i = ground arith

and_pair_lem_example :
    IsReduced (and_pair early late).segments
    × IsReduced (or_pair early late).segments
    × ((i : ℕ)
        → covers i (and_pair early late).segments
          ≡ (covers i early.segments && covers i late.segments))
    × ((i : ℕ)
        → covers i (or_pair early late).segments
          ≡ (covers i early.segments || covers i late.segments))
and_pair_lem_example = and_pair_lem early late early-IsSorted late-IsSorted

xor_pair_lem_example : covers 17 (xor_pair early late).segments ≡ false
xor_pair_lem_example = xor_pair_lem 17 early late early-IsSorted late-IsSorted late-IsApart

not_single_lem_example : covers 30 (not_single early).segments ≡ true
not_single_lem_example =
    not_single_lem 30 early (λ e. ground (arith, e)) early-IsSorted early-IsInside

abbrev any : Segment → Bool
any s = true

reject_lem_example : count any (reject early late).segments ≡ 0
reject_lem_example = reject_lem any early late early-IsSorted late-IsSorted

until_single-partition_example : depth 30 (until_single early).segments ≡ 1
until_single-partition_example =
    until_single-partition 30 early (omega arith) (omega arith, (omega arith, (omega arith, tt)))
      early-IsSorted (omega arith, (omega arith, (omega arith, tt)))

abbrev second : List Entry
second = record { kind = simple; from = pos 2; to = pos 2 } ∷ []

index-second :
    (index early (record { kind = simple; from = pos 2; to = pos 2 } ∷ second)).segments
    ≡ seg 18 25 ∷ []
unfolding index array_of array_up_to add_ranges entries slice_to slice cut first_place last_place
    add_entry insert_each insert_segment
index-second = refl
