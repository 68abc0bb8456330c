-- ===== src/Rl/Export/Pages.antt =====
-- The pages of an export (controller/src/rl_feedback_loop/export.rs).
use Prim.Native.Nat.{min}
use pokemon_rs.Prelude.{
  ℕ, zero, suc, ◌+◌, ◌-◌, ◌*◌, ◌%◌, ◌^◌, ◌≤◌, ◌<◌, ◌≡◌, refl, ap, ◌∙◌, Option, none, some, List, [],
  ◌++◌, map, arith, drop, take, length, length-drop, take-min, drop-min, drop-drop, take-add,
  take_of_length-le, map-take, map-drop, length-map, Result, ok, err,
}
use pokemon_rs.Rl.Store.{Experience, StoreError, ExperienceStore}
use pokemon_rs.Rl.Export.{
  ExportParams, ExportRecord, ExportResponse, slice, page_limit, page, of_experience,
  export_experiences, export_list,
}

page-lem :
    {A : Type 0} (xs : List A) (limit offset : ℕ)
    → length xs < 2 ^ 32
    → page xs limit offset ≡ some (take (page_limit limit) (drop offset xs))
unfolding page slice
page-lem xs limit offset small =
    let start = min offset (length xs) in
    let rest = drop start xs in
    let n = page_limit limit in
    let len : length rest ≡ length xs - start = length-drop start xs in
    let width : min (start + n) (length xs) - start ≡ min n (length rest) = omega arith in
    let same : take (min n (length rest)) rest ≡ take n (drop offset xs) =
      take-min n rest ∙ ap (take n) (drop-min offset xs) in
    let fits : length xs % 2 ^ 32 ≡ length xs = omega arith in rw fits (ground (arith, width, same))

-- A page never lies out of range, even where the length does not fit 32 bits.
pub page-total :
    {A : Type 0} (xs : List A) (limit offset : ℕ) → (ys : List A) × (page xs limit offset ≡ some ys)
unfolding page slice
page-total xs limit offset =
    let start = min offset (length xs % 2 ^ 32) in
    let end_ = min (start + page_limit limit) (length xs) in
    (take (end_ - start) (drop start xs), ground arith)

-- The pages that a client fetches from `offset` on, `n` entries further each time, joined.
abbrev pub join_pages : {A : Type 0} → (ℕ → Option (List A)) → ℕ → ℕ → ℕ → Option (List A)
join_pages fetch n zero offset = some []
join_pages fetch n (suc k) offset = elim (fetch offset) [
  | none ↦ none
  | some p ↦ elim (join_pages fetch n k (offset + n)) [ none ↦ none | some q ↦ some (p ++ q) ]
]

join_pages-lem :
    {A : Type 0} (fetch : ℕ → Option (List A)) (ys : List A) (n k offset : ℕ)
    → ((o : ℕ) → fetch o ≡ some (take n (drop o ys)))
    → join_pages fetch n k offset ≡ some (take (k * n) (drop offset ys))
join_pages-lem fetch ys n zero offset h = let e : 0 * n ≡ 0 = omega arith in rw e
join_pages-lem fetch ys n (suc k) offset h =
    let e : suc k * n ≡ n + k * n = omega arith in
    let all : take (suc k * n) (drop offset ys)
        ≡ take n (drop offset ys) ++ take (k * n) (drop (offset + n) ys) =
      ap (λ m. take m (drop offset ys)) e
      ∙ take-add n (k * n) (drop offset ys)
      ∙ ap (λ r. take n (drop offset ys) ++ take (k * n) r) (drop-drop n offset ys) in
    ground (arith, h offset, join_pages-lem fetch ys n k (offset + n) h, all)

-- The records in the answer of an export, if there is one.
abbrev pub fetched :
    {F J T S E : Type 0}
    → S × Option (Result E (ExportResponse F J T))
    → Option (List (ExportRecord F J T))
fetched (s, none) = none
fetched (s, some (err e)) = none
fetched (s, some (ok r)) = some r.experiences

-- An export never panics.
pub export_list-total :
    {F J T : Type 0} (p : ExportParams) (r : Result StoreError (List (Experience F J T)))
    → (out : Result StoreError (ExportResponse F J T)) × (export_list p r ≡ some out)
export_list-total p (err e) = (err e, refl)
export_list-total p (ok xs) =
    let (ys, e) = page-total xs p.limit p.offset in
    (ok (record { experiences = map of_experience ys }), rw (e, export_list) refl)

module _ {F J T S : Type 0} (store : ExperienceStore F J T S) where
  -- For a session of which the store lists fewer than 2^32 experiences an export does not cut its
  -- page out of range, and returns the records of the listing from the offset on, as many as the
  -- limit, brought into the range from 1 to 10000, allows; if the store cannot list, the export
  -- returns its error.
  pub export_experiences_page :
      (p : ExportParams) (s s' : S) (listed : Result StoreError (List (Experience F J T)))
      → store.list_by_session p.session_id s ≡ (s', listed)
      → ((xs : List (Experience F J T))
          → listed ≡ ok xs
          → length xs < 2 ^ 32
          → export_experiences store p s ≡ (
            s',
            some (
                ok (record {
                  experiences = take (page_limit p.limit) (drop p.offset (map of_experience xs));
                })),
          ))
        × ((e : StoreError) → listed ≡ err e → export_experiences store p s ≡ (s', some (err e)))
  unfolding export_experiences
  export_experiences_page p s s' listed at = (
    λ xs e small.
        let n = page_limit p.limit in
        let moved : map of_experience (take n (drop p.offset xs))
            ≡ take n (drop p.offset (map of_experience xs)) =
          map-take of_experience n (drop p.offset xs)
          ∙ ap (take n) (map-drop of_experience p.offset xs) in
        rw (at, e, page-lem xs p.limit p.offset small, export_experiences, export_list)
          (ap (λ rs. (s', some (ok (record { experiences = rs })))) moved),
    λ e failed. rw (at, failed, export_experiences) refl,
  )

  -- A client that fetches pages of `n` records, `n` from 1 to 10000, from offset 0 and `n` further
  -- each time, and joins them gets all of the session's records in the order in which the store
  -- lists them, each once, if it fetches enough pages and the session has fewer than 2^32
  -- experiences.
  pub join_pages-export_experiences :
      (s s' : S) (id n k : ℕ) (xs : List (Experience F J T))
      → store.list_by_session id s ≡ (s', ok xs)
      → 1 ≤ n
      → n ≤ 10_000
      → length xs < 2 ^ 32
      → length xs ≤ k * n
      → join_pages
          (λ o.
            fetched
              (export_experiences store (record { session_id = id; limit = n; offset = o }) s))
          n
          k
          0
        ≡ some (map of_experience xs)
  join_pages-export_experiences s s' id n k xs at low high small enough =
      let ys = map of_experience xs in
      let same : page_limit n ≡ n = omega arith in
      join_pages-lem _ ys n k 0 (λ o.
        ap fetched (
          (export_experiences_page (record { session_id = id; limit = n; offset = o }) s s' (ok xs)
              at).0
            xs refl small)
        ∙ ap (λ w. some (take w (drop o ys))) same)
      ∙ ap some (take_of_length-le (k * n) ys (omega (arith, length-map of_experience xs)))
