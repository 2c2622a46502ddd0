-- ===== src/Fs/PathSyntax.antt =====
-- Paths as `split_path` and the `strtok_r` loop of `resolve_dir` in fs/src/fs.c cut them.
use mathlib.Core.List.{append_assoc}
use cs2310_prj.Base.{
  ◌||◌, ◌≢◌, arith, ◌⊎◌, ℕ, Bool, true, false, none, some, List, [], ◌∷◌, ◌++◌, ◌≡◌, refl, ap, ◌∙◌,
  if◌then◌else◌, ◌==◌, Bool-cases, arith, inl, inr,
}
use cs2310_prj.Fs.Dir.{slash}
use cs2310_prj.Fs.Paths.{last_slash, split_at, split_path, segments, push_segment}

abbrev pub has_slash : List ℕ → Bool
has_slash [] = false
has_slash (c ∷ s) = if c == b'/' then true else has_slash s

last_slash_cases :
    (path : List ℕ)
    → ((last_slash path ≡ none) × (has_slash path ≡ false))
      ⊎ ((dir : List ℕ) × (leaf : List ℕ) × (last_slash path ≡ some (dir, leaf))
          × (dir ++ b'/' ∷ leaf ≡ path)
          × (has_slash leaf ≡ false))
unfolding last_slash
last_slash_cases [] = inl (refl, refl)
last_slash_cases (c ∷ s) = elim (last_slash_cases s) [
  | inl (e, n) ↦ elim (Bool-cases (c == b'/')) [
    | inl y ↦ let q : c ≡ b'/' = ground arith in inr ([], s, rw (e, y), rw q, n)
    | inr y ↦ inl (rw (e, y), rw (y) n)
  ]
  | inr (dir, leaf, e, p, n) ↦ inr (c ∷ dir, leaf, rw e, ap (λ t. c ∷ t) p, n)
]

has_slash-snoc : (seg : List ℕ) (c : ℕ) → has_slash (seg ++ c ∷ []) ≡ (has_slash seg || c == b'/')
has_slash-snoc [] c = elim (Bool-cases (c == b'/')) [ inl e ↦ rw e refl | inr e ↦ rw e refl ]
has_slash-snoc (d ∷ seg) c = elim (Bool-cases (d == b'/')) [
  | inl e ↦ rw e refl
  | inr e ↦ rw e (has_slash-snoc seg c)
]

-- `split_path` cuts a path with a slash at the last one, so that the last segment has no slash: a
-- directory that is not empty, a slash and the last segment are the path; but where the only slash
-- is the first byte the directory is "/", and it and the last segment are the path. For a path
-- without a slash the directory is empty and the last segment is the path.
pub split_path_lem :
    (path : List ℕ)
    → (has_slash (split_path path).1 ≡ false)
      × ((((split_path path).0 ≡ []) × ((split_path path).1 ≡ path))
          ⊎ (((split_path path).0 ≡ slash) × (slash ++ (split_path path).1 ≡ path))
          ⊎ (((split_path path).0 ≢ [])
              × ((split_path path).0 ++ b'/' ∷ (split_path path).1 ≡ path)))
unfolding split_at
split_path_lem path = elim (last_slash_cases path) [
  | inl (e, n) ↦ rw e (n, inl (refl, refl))
  | inr ([], leaf, e, p, n) ↦ rw e (n, inr (inl (refl, p)))
  | inr (c ∷ dir, leaf, e, p, n) ↦ rw e (n, inr (inr (λ q. ground arith, p)))
]

-- Segments are not empty and have no slash.
abbrev pub IsSegments : List (List ℕ) → Type 0
IsSegments [] = Unit {0}
IsSegments (seg ∷ segs) = (seg ≢ []) × (has_slash seg ≡ false) × IsSegments segs

push_segment-IsSegments :
    (seg : List ℕ) (segs : List (List ℕ))
    → has_slash seg ≡ false
    → IsSegments segs
    → IsSegments (push_segment seg segs)
push_segment-IsSegments [] segs n h = h
push_segment-IsSegments (c ∷ seg) segs n h = (λ e. ground arith, n, h)

segments-from : (s seg : List ℕ) → has_slash seg ≡ false → IsSegments (segments seg s)
unfolding segments
segments-from [] seg n = push_segment-IsSegments seg [] n tt
segments-from (c ∷ s) seg n = elim (Bool-cases (c == b'/')) [
  | inl e ↦ rw e (push_segment-IsSegments seg (segments [] s) n (segments-from s [] refl))
  | inr e ↦ rw e (segments-from s (seg ++ c ∷ []) (cc (has_slash-snoc seg c)))
]

-- The bytes of the segments, and the bytes of a path that are not slashes.
abbrev pub joined : List (List ℕ) → List ℕ
joined [] = []
joined (seg ∷ segs) = seg ++ joined segs

abbrev pub without_slashes : List ℕ → List ℕ
without_slashes [] = []
without_slashes (c ∷ s) = if c == b'/' then without_slashes s else c ∷ without_slashes s

joined-push_segment :
    (seg : List ℕ) (segs : List (List ℕ)) → joined (push_segment seg segs) ≡ seg ++ joined segs
joined-push_segment [] segs = refl
joined-push_segment (c ∷ seg) segs = refl

joined-from : (s seg : List ℕ) → joined (segments seg s) ≡ seg ++ without_slashes s
unfolding segments
joined-from [] seg = joined-push_segment seg []
joined-from (c ∷ s) seg = elim (Bool-cases (c == b'/')) [
  | inl e ↦ rw e (joined-push_segment seg (segments [] s) ∙ ap (λ t. seg ++ t) (joined-from s []))
  | inr e ↦ rw e (joined-from s (seg ++ c ∷ []) ∙ append_assoc seg (c ∷ []) (without_slashes s))
]

-- The segments that `resolve_dir` walks along are not empty and have no slash, and together they
-- are the bytes of the path but for its slashes, in their order.
pub segments_lem :
    (path : List ℕ)
    → IsSegments (segments [] path) × (joined (segments [] path) ≡ without_slashes path)
segments_lem path = (segments-from path [] refl, joined-from path [])
