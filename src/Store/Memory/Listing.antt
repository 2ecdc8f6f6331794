-- ===== src/Store/Memory/Listing.antt =====
-- `listInstitutionDeposits`: only the institution's deposits, the newest first, up to the limit.
use mathlib.Core.List.{Perm}
use mathlib.Core.List.Perm
use g_pay.Base.{
  ℕ, zero, suc, ◌-◌, ◌≤◌, ◌≡◌, ◌≢◌, ◌++◌, sym, refl, ap, ◌∙◌, inl, inr, Option, none, some, List,
  [], ◌∷◌, arith, Text, length, length-take, take, min, text_eq, text_eq_iff, leb, All, All-take,
  Bool-cases,
}
use g_pay.Store.Types.{
  DepositRecord, Num, nan, infinity, neg_infinity, nonneg, neg, above, below, slice_back, slice_to,
}
use g_pay.Store.JsMap.{values}
use g_pay.Store.Memory.{
  MemoryStore, owned_by, insert_newest, sort_newest, limit_or_default, list_institution_deposits,
}

-- No deposit stands before a newer one.
abbrev pub IsNewestFirst : List DepositRecord → Type 0
IsNewestFirst [] = Unit
IsNewestFirst (d ∷ ds) = All (λ e. e.created_at ≤ d.created_at) ds × IsNewestFirst ds

module _ (P : DepositRecord → Type 0) where
  insert_newest-All :
      (d : DepositRecord) (es : List DepositRecord) → P d → All P es → All P (insert_newest d es)
  unfolding insert_newest
  insert_newest-All d [] h hs = (h, tt)
  insert_newest-All d (e ∷ es) h (he, hs) = elim (Bool-cases (leb e.created_at d.created_at)) [
    | inl before ↦ rw before (h, (he, hs))
    | inr behind ↦ rw behind (he, insert_newest-All d es h hs)
  ]

  sort_newest-All : (ds : List DepositRecord) → All P ds → All P (sort_newest ds)
  unfolding sort_newest
  sort_newest-All [] h = tt
  sort_newest-All (d ∷ ds) (h, hs) = insert_newest-All d (sort_newest ds) h (sort_newest-All ds hs)

  slice_back-All : (n : ℕ) (ds : List DepositRecord) → All P ds → All P (slice_back n ds)
  slice_back-All zero ds h = tt
  slice_back-All (suc n) ds h = All-take P (length ds - suc n) ds h

  slice_to-All : (n : Num) (ds : List DepositRecord) → All P ds → All P (slice_to n ds)
  unfolding slice_to
  slice_to-All nan ds h = tt
  slice_to-All infinity ds h = h
  slice_to-All neg_infinity ds h = tt
  slice_to-All (nonneg n) ds h = All-take P n ds h
  slice_to-All (neg n) ds h = slice_back-All (suc n) ds h
  slice_to-All (above n) ds h = All-take P n ds h
  slice_to-All (below n) ds h = slice_back-All n ds h

All-le_trans :
    (n m : ℕ) (es : List DepositRecord)
    → n ≤ m
    → All (λ e. e.created_at ≤ n) es
    → All (λ e. e.created_at ≤ m) es
All-le_trans n m [] h hs = tt
All-le_trans n m (e ∷ es) h (he, hs) = (omega arith, All-le_trans n m es h hs)

insert_newest-IsNewestFirst :
    (d : DepositRecord) (es : List DepositRecord)
    → IsNewestFirst es
    → IsNewestFirst (insert_newest d es)
unfolding insert_newest
insert_newest-IsNewestFirst d [] h = (tt, tt)
insert_newest-IsNewestFirst d (e ∷ es) (he, h) = elim (Bool-cases (leb e.created_at d.created_at)) [
  | inl before ↦
      let le : e.created_at ≤ d.created_at = ground arith in
      rw before ((le, All-le_trans e.created_at d.created_at es le he), (he, h))
  | inr behind ↦
      let le : d.created_at ≤ e.created_at = ground arith in
      rw behind (
        insert_newest-All (λ x. x.created_at ≤ e.created_at) d es le he,
        insert_newest-IsNewestFirst d es h,
      )
]

pub sort_newest-IsNewestFirst : (ds : List DepositRecord) → IsNewestFirst (sort_newest ds)
unfolding sort_newest
sort_newest-IsNewestFirst [] = tt
sort_newest-IsNewestFirst (d ∷ ds) =
    insert_newest-IsNewestFirst d (sort_newest ds) (sort_newest-IsNewestFirst ds)

insert_newest-perm :
    (d : DepositRecord) (es : List DepositRecord) → Perm (insert_newest d es) (d ∷ es)
unfolding insert_newest
insert_newest-perm d [] = Perm.refl (d ∷ [])
insert_newest-perm d (e ∷ es) = elim (Bool-cases (leb e.created_at d.created_at)) [
  | inl before ↦ rw before (Perm.refl (d ∷ e ∷ es))
  | inr behind ↦ rw behind (Perm.trans (Perm.cons e (insert_newest-perm d es)) (Perm.swap d e es))
]

pub sort_newest-perm : (ds : List DepositRecord) → Perm (sort_newest ds) ds
unfolding sort_newest
sort_newest-perm [] = Perm.refl []
sort_newest-perm (d ∷ ds) =
    Perm.trans (insert_newest-perm d (sort_newest ds)) (Perm.cons d (sort_newest-perm ds))

IsNewestFirst-take :
    (n : ℕ) (ds : List DepositRecord) → IsNewestFirst ds → IsNewestFirst (take n ds)
IsNewestFirst-take zero ds h = tt
IsNewestFirst-take (suc n) [] h = tt
IsNewestFirst-take (suc n) (d ∷ ds) (hd, h) =
    (All-take (λ e. e.created_at ≤ d.created_at) n ds hd, IsNewestFirst-take n ds h)

IsNewestFirst-slice_back :
    (n : ℕ) (ds : List DepositRecord) → IsNewestFirst ds → IsNewestFirst (slice_back n ds)
IsNewestFirst-slice_back zero ds h = tt
IsNewestFirst-slice_back (suc n) ds h = IsNewestFirst-take (length ds - suc n) ds h

IsNewestFirst-slice_to :
    (n : Num) (ds : List DepositRecord) → IsNewestFirst ds → IsNewestFirst (slice_to n ds)
unfolding slice_to
IsNewestFirst-slice_to nan ds h = tt
IsNewestFirst-slice_to infinity ds h = h
IsNewestFirst-slice_to neg_infinity ds h = tt
IsNewestFirst-slice_to (nonneg n) ds h = IsNewestFirst-take n ds h
IsNewestFirst-slice_to (neg n) ds h = IsNewestFirst-slice_back (suc n) ds h
IsNewestFirst-slice_to (above n) ds h = IsNewestFirst-take n ds h
IsNewestFirst-slice_to (below n) ds h = IsNewestFirst-slice_back n ds h

owned_by-All :
    (id : Text) (ds : List DepositRecord) → All (λ d. d.institution_id ≡ id) (owned_by id ds)
unfolding owned_by
owned_by-All id [] = tt
owned_by-All id (d ∷ ds) = elim (Bool-cases (text_eq d.institution_id id)) [
  | inl own ↦ rw own ((text_eq_iff d.institution_id id).0 own, owned_by-All id ds)
  | inr other ↦ rw other (owned_by-All id ds)
]

length-insert_newest :
    (d : DepositRecord) (es : List DepositRecord) → length (insert_newest d es) ≡ suc (length es)
unfolding insert_newest
length-insert_newest d [] = refl
length-insert_newest d (e ∷ es) = ground (arith, length-insert_newest d es)

length-sort_newest : (ds : List DepositRecord) → length (sort_newest ds) ≡ length ds
unfolding sort_newest
length-sort_newest [] = refl
length-sort_newest (d ∷ ds) =
    length-insert_newest d (sort_newest ds) ∙ ap suc (length-sort_newest ds)

-- Whatever the limit, every deposit that is listed is the institution's, and none stands before a
-- newer one.
pub list_institution_deposits_lem :
    (id : Text) (limit : Option Num) (s : MemoryStore)
    → let ds = list_institution_deposits id limit s in
      All (λ d. d.institution_id ≡ id) ds × IsNewestFirst ds
unfolding list_institution_deposits
list_institution_deposits_lem id limit s =
    let owned = owned_by id (values s.deposits) in
    (
      slice_to-All (λ d. d.institution_id ≡ id) (limit_or_default limit) (sort_newest owned)
          (sort_newest-All (λ d. d.institution_id ≡ id) owned
            (owned_by-All id (values s.deposits))),
      IsNewestFirst-slice_to (limit_or_default limit) (sort_newest owned)
          (sort_newest-IsNewestFirst owned),
    )

perm_middle :
    (d : DepositRecord) (xs ys : List DepositRecord) → Perm (xs ++ d ∷ ys) (d ∷ (xs ++ ys))
perm_middle d [] ys = Perm.refl (d ∷ ys)
perm_middle d (x ∷ xs) ys =
    Perm.trans (Perm.cons x (perm_middle d xs ys)) (Perm.swap d x (xs ++ ys))

-- The deposits that are not the institution's.
owned_by-Others :
    (id : Text) (ds : List DepositRecord)
    → (others : List DepositRecord) × Perm ds (owned_by id ds ++ others)
      × All (λ d. d.institution_id ≢ id) others
unfolding owned_by
owned_by-Others id [] = ([], Perm.refl [], tt)
owned_by-Others id (d ∷ ds) =
    let (others, perm, not_own) = owned_by-Others id ds in
    elim (Bool-cases (text_eq d.institution_id id)) [
      | inl own ↦ rw own (others, Perm.cons d perm, not_own)
      | inr other ↦
          let differs : d.institution_id ≢ id =
            (λ e. absurd (cc (sym other ∙ (text_eq_iff d.institution_id id).1 e))) in
          rw other (
            d ∷ others,
            Perm.trans (Perm.cons d perm) (Perm.symm (perm_middle d (owned_by id ds) others)),
            (differs, not_own),
          )
    ]

-- Without a bound the list and deposits of other institutions are together the store's deposits in
-- some order, all on the list are the institution's, and none stands before a newer one; with a
-- bound n it is the first n of that list, and with none given the first 200.
pub list_institution_deposits_complete :
    (id : Text) (s : MemoryStore)
    → let full = list_institution_deposits id (some infinity) s in
      ((others : List DepositRecord) × Perm (values s.deposits) (full ++ others)
        × All (λ d. d.institution_id ≢ id) others)
      × All (λ d. d.institution_id ≡ id) full
      × IsNewestFirst full
      × ((n : ℕ) → list_institution_deposits id (some (nonneg n)) s ≡ take n full)
      × (list_institution_deposits id none s ≡ take 200 full)
unfolding list_institution_deposits slice_to
list_institution_deposits_complete id s =
    let owned = owned_by id (values s.deposits) in
    let (others, perm, not_own) = owned_by-Others id (values s.deposits) in
    let (own, newest) = list_institution_deposits_lem id (some infinity) s in
    (
      (
        others,
        Perm.trans perm (Perm.append_right others (Perm.symm (sort_newest-perm owned))),
        not_own,
      ),
      own,
      newest,
      (λ n. refl),
      refl,
    )

-- So a bounded list is as long as the bound or the number of the institution's deposits.
pub length-list_institution_deposits :
    (id : Text) (n : ℕ) (s : MemoryStore)
    → length (list_institution_deposits id (some (nonneg n)) s)
      ≡ min n (length (owned_by id (values s.deposits)))
unfolding list_institution_deposits slice_to
length-list_institution_deposits id n s =
    length-take n (sort_newest (owned_by id (values s.deposits)))
    ∙ ap (min n) (length-sort_newest (owned_by id (values s.deposits)))
