-- ===== src/Tools/Fileserver/Resolve.antt =====
-- Which programs can be run at all, and which of them is.
use mathlib.Core.Path.{subst}
use mathlib.Core.List.{append_assoc, append-nil}
use stadhouder.Base.{
  ==_iff, ℕ, zero, suc, ◌+◌, ◌≤◌, ◌<◌, ◌≡◌, refl, ap, ◌∙◌, inl, inr, true, false, none, some, List,
  [], ◌∷◌, ◌++◌, arith, Text, length, take, is_empty, length-append, leb, ◌==◌, if◌then◌else◌,
  Bool-cases, Option-cases, text_eq, text_eq_refl, text_eq_iff, holds,
}
use stadhouder.Layout.{join}
use stadhouder.Tools.Fileserver.{
  Paths, Script, cgi_extensions, segments, join_segments, is_within, candidate, try_extensions,
  path_info_of, try_splits, resolve_cgi_script,
}

-- A program that a request with this name may run.
pub record Runs (fs : Paths) (cgi_bin : Text) (name : Text) (file : Text) : Type 0 where
  pub ext : Text
  pub known : holds cgi_extensions ext ≡ true
  pub found : fs.canonicalize (join cgi_bin (name ++ ext)) ≡ some file
  pub within : is_within cgi_bin file ≡ true
  pub is_a_file : fs.is_file file ≡ true

candidate-found :
    (fs : Paths) (cgi_bin name ext file : Text)
    → candidate fs cgi_bin name ext ≡ some file
    → (fs.canonicalize (join cgi_bin (name ++ ext)) ≡ some file)
      × (is_within cgi_bin file ≡ true)
      × (fs.is_file file ≡ true)
unfolding candidate
candidate-found fs cgi_bin name ext file h = ground arith

refused-none :
    (fs : Paths) (cgi_bin name ext file : Text)
    → candidate fs cgi_bin name ext ≡ none
    → fs.canonicalize (join cgi_bin (name ++ ext)) ≡ some file
    → is_within cgi_bin file ≡ true
    → fs.is_file file ≡ false
unfolding candidate
refused-none fs cgi_bin name ext file h found within = ground arith

try_extensions-found :
    (fs : Paths) (cgi_bin name : Text) (exts : List Text) (file : Text)
    → try_extensions fs cgi_bin name exts ≡ some file
    → (ext : Text) × (holds exts ext ≡ true) × (candidate fs cgi_bin name ext ≡ some file)
unfolding try_extensions
try_extensions-found fs cgi_bin name [] file h = cc
try_extensions-found fs cgi_bin name (ext ∷ exts) file h =
    elim (Option-cases (candidate fs cgi_bin name ext)) [
      | inl e ↦
          let (x, known, found) =
            try_extensions-found fs cgi_bin name exts file (rw (e, try_extensions) at h) in
          (x, ground (arith, known), found)
      | inr (a, e) ↦ (ext, ground (arith, text_eq_refl ext), e ∙ (rw (e, try_extensions) at h))
    ]

try_extensions-none :
    (fs : Paths) (cgi_bin name : Text) (exts : List Text) (ext : Text)
    → try_extensions fs cgi_bin name exts ≡ none
    → holds exts ext ≡ true
    → candidate fs cgi_bin name ext ≡ none
unfolding try_extensions
try_extensions-none fs cgi_bin name [] ext h known = cc
try_extensions-none fs cgi_bin name (x ∷ exts) ext h known =
    elim (Option-cases (candidate fs cgi_bin name x)) [
      | inl e ↦ elim (Bool-cases (text_eq x ext)) [
        | inl same ↦ rw (← (text_eq_iff x ext).0 same) e
        | inr other ↦
            try_extensions-none fs cgi_bin name exts ext (rw (e, try_extensions) at h)
              (rw other at known)
      ]
      | inr (a, e) ↦ cc (rw (e, try_extensions) at h)
    ]

-- Where no extension is found, no program can be run under the name.
pub no_ext-Runs :
    (fs : Paths) (cgi_bin name file : Text)
    → try_extensions fs cgi_bin name cgi_extensions ≡ none
    → Runs fs cgi_bin name file
    → ⊥
no_ext-Runs fs cgi_bin name file h r =
    let refused = try_extensions-none fs cgi_bin name cgi_extensions r.ext h r.known in
    cc (refused-none fs cgi_bin name r.ext file refused r.found r.within, r.is_a_file)

found-Runs :
    (fs : Paths) (cgi_bin name file : Text)
    → try_extensions fs cgi_bin name cgi_extensions ≡ some file
    → Runs fs cgi_bin name file
found-Runs fs cgi_bin name file h =
    let (ext, known, e) = try_extensions-found fs cgi_bin name cgi_extensions file h in
    let (found, within, is_a_file) = candidate-found fs cgi_bin name ext file e in
    record { ext = ext; known = known; found = found; within = within; is_a_file = is_a_file }

join-cons :
    (p : Text) (qs : List Text)
    → 0 < length qs
    → join_segments (p ∷ qs) ≡ p ++ b'/' ∷ join_segments qs
unfolding join_segments
join-cons p [] h = absurd (omega arith)
join-cons p (q ∷ qs) h = refl

path_info-cons :
    (p : Text) (n : ℕ) (parts : List Text) → path_info_of (suc n) (p ∷ parts) ≡ path_info_of n parts
unfolding path_info_of
path_info-cons p n parts = ground arith

join-drop :
    (k : ℕ) (parts : List Text)
    → k < length parts
    → join_segments (take (suc k) parts) ++ path_info_of (suc k) parts ≡ join_segments parts
unfolding join_segments path_info_of
join-drop k [] h = absurd (omega arith)
join-drop zero (p ∷ []) h = append-nil p
join-drop zero (p ∷ q ∷ ps) h = ground arith
join-drop (suc k) (p ∷ []) h = absurd (omega arith)
join-drop (suc k) (p ∷ q ∷ ps) h = rw (path_info-cons p (suc k) (q ∷ ps)) (
    append_assoc p (b'/' ∷ join_segments (take (suc k) (q ∷ ps))) (path_info_of (suc k) (q ∷ ps))
    ∙ ap (λ s. p ++ b'/' ∷ s) (join-drop k (q ∷ ps) (omega arith)))

-- The script that is chosen among the first `n` splits, with nothing that runs between.
record Chosen (fs : Paths) (cgi_bin : Text) (parts : List Text) (n : ℕ) (s : Script) : Type 0 where
  count : ℕ
  below : count < n
  named : s.name ≡ join_segments (take (suc count) parts)
  rest : s.path_info ≡ path_info_of (suc count) parts
  runs : Runs fs cgi_bin s.name s.file
  longest :
      (m : ℕ) (file : Text)
      → count < m
      → m < n
      → Runs fs cgi_bin (join_segments (take (suc m) parts)) file
      → ⊥

some-eq : {A : Type 0} (a b : A) → some a ≡ some b → a ≡ b
some-eq a b e = cc

try_splits-Chosen :
    (fs : Paths) (cgi_bin : Text) (parts : List Text) (n : ℕ) (s : Script)
    → try_splits fs cgi_bin parts n ≡ some s
    → Chosen fs cgi_bin parts n s
unfolding try_splits
try_splits-Chosen fs cgi_bin parts zero s h = cc
try_splits-Chosen fs cgi_bin parts (suc n) s h =
    let name = join_segments (take (suc n) parts) in
    elim (Option-cases (try_extensions fs cgi_bin name cgi_extensions)) [
      | inl e ↦
          let c = try_splits-Chosen fs cgi_bin parts n s (rw (e, try_splits) at h) in
          record {
            count = c.count;
            below = omega (arith, c.below);
            named = c.named;
            rest = c.rest;
            runs = c.runs;
            longest = λ m file low high r. elim (Bool-cases (m == n)) [
              | inl same ↦ no_ext-Runs fs cgi_bin name file e (
                  subst (λ k. Runs fs cgi_bin (join_segments (take (suc k) parts)) file)
                    ((==_iff m n).0 same) r)
              | inr other ↦ c.longest m file low (ground (arith, other)) r
            ];
          }
      | inr (file, e) ↦
          subst (Chosen fs cgi_bin parts (suc n)) (some-eq _ s (rw (e, try_splits) at h)) (record {
            count = n;
            below = omega arith;
            named = refl;
            rest = refl;
            runs = found-Runs fs cgi_bin name file e;
            longest = λ m file low high r. absurd (omega arith);
          })
    ]

try_splits-none :
    (fs : Paths) (cgi_bin : Text) (parts : List Text) (n m : ℕ) (file : Text)
    → try_splits fs cgi_bin parts n ≡ none
    → m < n
    → Runs fs cgi_bin (join_segments (take (suc m) parts)) file
    → ⊥
unfolding try_splits
try_splits-none fs cgi_bin parts zero m file h low r = absurd (omega arith)
try_splits-none fs cgi_bin parts (suc n) m file h low r =
    let name = join_segments (take (suc n) parts) in
    elim (Option-cases (try_extensions fs cgi_bin name cgi_extensions)) [
      | inl e ↦ elim (Bool-cases (m == n)) [
        | inl same ↦ no_ext-Runs fs cgi_bin name file e (
            subst (λ k. Runs fs cgi_bin (join_segments (take (suc k) parts)) file)
              ((==_iff m n).0 same) r)
        | inr other ↦
            try_splits-none fs cgi_bin parts n m file (rw (e, try_splits) at h)
              (ground (arith, other)) r
      ]
      | inr (a, e) ↦ cc (rw (e, try_splits) at h)
    ]

length-join :
    (p : Text) (qs : List Text)
    → length (join_segments (p ∷ qs))
      ≡ length p + (if is_empty qs then 0 else suc (length (join_segments qs)))
unfolding join_segments
length-join p [] = omega arith
length-join p (q ∷ qs) = length-append p (b'/' ∷ join_segments (q ∷ qs))

is_empty-take :
    (m n : ℕ) (ps : List Text) → m ≤ n → is_empty (take n ps) ≡ true → is_empty (take m ps) ≡ true
is_empty-take zero n ps h e = refl
is_empty-take (suc m) zero ps h e = absurd (omega arith)
is_empty-take (suc m) (suc n) [] h e = refl
is_empty-take (suc m) (suc n) (p ∷ ps) h e = cc

length-join-take :
    (m n : ℕ) (ps : List Text)
    → m ≤ n
    → length (join_segments (take m ps)) ≤ length (join_segments (take n ps))
unfolding join_segments
length-join-take zero n ps h = omega arith
length-join-take (suc m) zero ps h = absurd (omega arith)
length-join-take (suc m) (suc n) [] h = omega arith
length-join-take (suc m) (suc n) (p ∷ ps) h =
    let step = length-join-take m n ps (omega arith) in
    let here = length-join p (take m ps) in
    let there = length-join p (take n ps) in
    rw (here, there) (ground (arith, step, is_empty-take m n ps (omega arith)))

longer_refused :
    (fs : Paths) (cgi_bin : Text) (parts : List Text) (s : Script)
    → Chosen fs cgi_bin parts (length parts) s
    → (m : ℕ) (file : Text) → m ≤ length parts
    → length s.name < length (join_segments (take m parts))
    → Runs fs cgi_bin (join_segments (take m parts)) file
    → ⊥
unfolding join_segments
longer_refused fs cgi_bin parts s c zero file high longer r = omega arith
longer_refused fs cgi_bin parts s c (suc m) file high longer r = elim (Bool-cases (leb m c.count)) [
  | inl short ↦
      let no_longer = length-join-take (suc m) (suc c.count) parts (ground (arith, short)) in
      omega (arith, no_longer, ap length c.named)
  | inr long ↦ c.longest m file (ground (arith, long)) (omega arith) r
]

-- A program that is run is a file inside of the cgi-bin directory, found under the script's name with
-- one of the known extensions; name and PATH_INFO together are the path that was asked for; and no
-- longer part of that path names anything that could be run.
pub resolve_cgi_script-Runs :
    (fs : Paths) (cgi_bin rest : Text) (s : Script)
    → resolve_cgi_script fs cgi_bin rest ≡ some s
    → Runs fs cgi_bin s.name s.file
      × (s.name ++ s.path_info ≡ join_segments (segments rest))
      × ((m : ℕ) (file : Text)
          → m ≤ length (segments rest)
          → length s.name < length (join_segments (take m (segments rest)))
          → ¬ Runs fs cgi_bin (join_segments (take m (segments rest))) file)
unfolding resolve_cgi_script
resolve_cgi_script-Runs fs cgi_bin rest s h =
    let parts = segments rest in
    let c = try_splits-Chosen fs cgi_bin parts (length parts) s h in
    (
      c.runs,
      ap (λ t. t ++ s.path_info) c.named
          ∙ ap (λ t. join_segments (take (suc c.count) parts) ++ t) c.rest
          ∙ join-drop c.count parts c.below,
      λ m file high longer. longer_refused fs cgi_bin parts s c m file high longer,
    )

-- Where no script is found, no part of the path from its first segment on names a program that could
-- be run.
pub resolve_cgi_script-none :
    (fs : Paths) (cgi_bin rest : Text) (m : ℕ) (file : Text)
    → resolve_cgi_script fs cgi_bin rest ≡ none
    → m < length (segments rest)
    → ¬ Runs fs cgi_bin (join_segments (take (suc m) (segments rest))) file
unfolding resolve_cgi_script
resolve_cgi_script-none fs cgi_bin rest m file h low r =
    let parts = segments rest in try_splits-none fs cgi_bin parts (length parts) m file h low r
