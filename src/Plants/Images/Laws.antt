-- ===== src/Plants/Images/Laws.antt =====
-- Which media a card shows.
use mathlib.Core.Logic.Or
use mathlib.Core.List.{Perm, Mem, Mem-prop, mem-cons, not-mem-nil}
use mathlib.Core.List.Perm
use green_garden_api.Prelude.{
  ◌≡◌, refl, sym, eq_of_some, Bool, true, false, some, List, [], ◌∷◌, find?, find?-sound, arith,
  Bool-cases, inl, inr,
}
use green_garden_api.Database.Models.{PlantImage}
use green_garden_api.Listing.Laws.{order_by-perm, InOrder, InOrder-order_by}
use green_garden_api.Plants.Images.{shows_before, sorted_images, is_still, primary_image_url}

-- `sorted_images` is a permutation of the media in display order: by `sort_order`, and on a tie by age.
pub sorted_images-perm :
    (images : List PlantImage)
    → Perm (sorted_images images) images × InOrder shows_before (sorted_images images)
unfolding sorted_images shows_before
sorted_images-perm images = (
  order_by-perm shows_before images,
  InOrder-order_by shows_before (λ a b h. ground arith) images,
)

test-prop : {b : Bool} → IsProp (b ≡ true)
test-prop = hlevel

shows_before_refl : (a : PlantImage) → shows_before a a ≡ true
unfolding shows_before
shows_before_refl a = ground arith

shows_before_trans :
    (a b c : PlantImage)
    → shows_before a b ≡ true
    → shows_before b c ≡ true
    → shows_before a c ≡ true
unfolding shows_before
shows_before_trans a b c h k = ground arith

-- The first of the rows is shown before all of them.
first-before :
    (first image : PlantImage) (rows : List PlantImage)
    → InOrder shows_before (first ∷ rows)
    → Mem image (first ∷ rows)
    → shows_before first image ≡ true
first-before first image rows h m =
    Or.elim test-prop (mem-cons.0 m) (λ e. rw e (shows_before_refl first)) (later rows h)
  where
    later :
        (rows : List PlantImage)
        → InOrder shows_before (first ∷ rows)
        → Mem image rows
        → shows_before first image ≡ true
    later [] h m = absurd (not-mem-nil m)
    later (b ∷ rows) h m =
        Or.elim test-prop (mem-cons.0 m) (λ e. rw e h.0) (λ n. later rows (skip b rows h) n)
      where
        skip :
            (b : PlantImage) (rows : List PlantImage)
            → InOrder shows_before (first ∷ b ∷ rows)
            → InOrder shows_before (first ∷ rows)
        skip b [] h = tt
        skip b (c ∷ rows) h = (shows_before_trans first b c h.0 h.1.0, h.1.1)

-- The first row that passes a test is one of the rows.
Mem-find? :
    (p : PlantImage → Bool) (rows : List PlantImage) {a : PlantImage}
    → find? p rows ≡ some a
    → Mem a rows
Mem-find? p [] h = cc
Mem-find? p (b ∷ rows) {a} h = elim (Bool-cases (p b)) [
  | inl here ↦ mem-cons.1 (Or.inl (sym (eq_of_some (rw here at h))))
  | inr later ↦ mem-cons.1 (Or.inr (Mem-find? p rows (rw later at h)))
]

-- Rows that hold a still image have a first one.
find?-is_still :
    (rows : List PlantImage) {image : PlantImage}
    → Mem image rows
    → is_still image ≡ true
    → (best : PlantImage) × (find? is_still rows ≡ some best)
find?-is_still [] m still = absurd (not-mem-nil m)
find?-is_still (a ∷ rows) {image} m still = elim (Bool-cases (is_still a)) [
  | inl here ↦ (a, rw here refl)
  | inr later ↦
      let (best, found) = find?-is_still rows (behind later) still in (best, rw later found)
]
  where
    contra : is_still a ≡ true → is_still a ≡ false → ⊥
    contra h k = cc

    behind : is_still a ≡ false → Mem image rows
    behind no' = Or.elim Mem-prop (mem-cons.0 m) (λ e. absurd (contra (rw e at still) no')) (λ n. n)

-- The first still image of rows in display order is shown before every other.
still-before :
    (rows : List PlantImage) {best : PlantImage}
    → InOrder shows_before rows
    → find? is_still rows ≡ some best
    → (image : PlantImage) → Mem image rows
    → is_still image ≡ true
    → shows_before best image ≡ true
still-before [] h found image m still = absurd (not-mem-nil m)
still-before (a ∷ rows) {best} h found image m still = elim (Bool-cases (is_still a)) [
  | inl here ↦
      let first : a ≡ best = eq_of_some (rw here at found) in
      rw (← first) (first-before a image rows h m)
  | inr later ↦
      Or.elim test-prop (mem-cons.0 m) (λ e. absurd (contra (rw e at still) later))
        (λ n. still-before rows (tail rows h) (rw later at found) image n still)
]
  where
    tail : (rows : List PlantImage) → InOrder shows_before (a ∷ rows) → InOrder shows_before rows
    tail [] h = tt
    tail (b ∷ rows) h = h.1

    contra : is_still a ≡ true → is_still a ≡ false → ⊥
    contra h k = cc

-- A plant that has a still image is shown by the address of one of its media, which is a still image
-- and comes first among all of its still images: by `sort_order`, and by age on a tie.
pub primary_image_url-still :
    (images : List PlantImage) {image : PlantImage}
    → Mem image images
    → is_still image ≡ true
    → (best : PlantImage) × Mem best images
      × (primary_image_url images ≡ some best.url)
      × (is_still best ≡ true)
      × ((other : PlantImage)
          → Mem other images
          → is_still other ≡ true
          → shows_before best other ≡ true)
unfolding primary_image_url
primary_image_url-still images m still =
    let (perm, order) = sorted_images-perm images in
    let (best, found) = find?-is_still (sorted_images images) ((Perm.mem_iff perm).1 m) still in
    (
      best,
      (Perm.mem_iff perm).0 (Mem-find? is_still (sorted_images images) found),
      rw found refl,
      find?-sound is_still (sorted_images images) found,
      λ other n other_still.
          still-before (sorted_images images) order found other ((Perm.mem_iff perm).1 n)
            other_still,
    )
