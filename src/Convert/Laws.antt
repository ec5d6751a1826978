-- ===== src/Convert/Laws.antt =====
-- What a converted auction is like.
use mathlib.Core.Path.{subst}
use bip300_monitor.Base.{
  ℕ, suc, ◌≡◌, ◌≤◌, ◌<◌, ◌⊎◌, ltb, ltb→lt, ◌&&◌, refl, sym, ap, ◌∙◌, inl, inr, Bool, true, false,
  not, ◌||◌, String, Option, List, [], ◌∷◌, Bytes, bytes_discrete, same, length, leb, leb→le,
  Bool-cases, ◌==◌, any, All, arith,
}
use bip300_monitor.Failure.{Result, ok, err, ◌>>◌, traverse, ensure-ok, returned-ok}
use bip300_monitor.Convert.{
  HexText, SeenRequest, BmmRequest, consensus_hex, slot, require_32_bytes, at_most, may_precede,
  insert_request, sort_requests, has_identity, check_identities, fixed_hex, convert_request,
  convert_requests,
}

at_most-total : (xs ys : Bytes) → at_most xs ys ≡ false → at_most ys xs ≡ true
unfolding at_most
at_most-total [] ys e = absurd (ground arith)
at_most-total (x ∷ xs) [] e = refl
at_most-total (x ∷ xs) (y ∷ ys) e = elim (Bool-cases (at_most xs ys)) [
  | inl h ↦ ground arith
  | inr h ↦ let t = at_most-total xs ys h in ground arith
]

may_precede-total : (l r : BmmRequest) → may_precede l r ≡ false → may_precede r l ≡ true
unfolding may_precede
may_precede-total l r e = elim (Bool-cases (at_most l.txid r.txid)) [
  | inl h ↦ ground arith
  | inr h ↦ let t = at_most-total l.txid r.txid h in ground arith
]

equal_number : (a b : ℕ) → (a == b) ≡ true → a ≡ b
equal_number a b e = ground arith

-- The order of two requests: by slot, then the highest bid first, then by transaction.
abbrev pub InOrder : BmmRequest → BmmRequest → Type 0
InOrder l r =
    (l.sidechain_number < r.sidechain_number)
    ⊎ ((l.sidechain_number ≡ r.sidechain_number)
        × ((r.bid_sats < l.bid_sats)
            ⊎ ((r.bid_sats ≡ l.bid_sats) × (at_most l.txid r.txid ≡ true))))

or_cases : (a b : Bool) → a || b ≡ true → (a ≡ true) ⊎ (b ≡ true)
or_cases true b e = inl refl
or_cases false b e = inr e

and_both : (a b : Bool) → a && b ≡ true → (a ≡ true) × (b ≡ true)
and_both a b e = ground arith

may_precede-InOrder : (l r : BmmRequest) → may_precede l r ≡ true → InOrder l r
unfolding may_precede
may_precede-InOrder l r e = elim (or_cases (ltb l.sidechain_number r.sidechain_number) _ e) [
  | inl lower ↦ inl (ltb→lt l.sidechain_number r.sidechain_number lower)
  | inr later ↦
      let (slots, rest) = and_both (l.sidechain_number == r.sidechain_number) _ later in
      let same_slot = equal_number l.sidechain_number r.sidechain_number slots in
      elim (or_cases (ltb r.bid_sats l.bid_sats) _ rest) [
        | inl higher ↦ inr (same_slot, inl (ltb→lt r.bid_sats l.bid_sats higher))
        | inr equal ↦
            let (bids, txids) = and_both (r.bid_sats == l.bid_sats) _ equal in
            inr (same_slot, inr (equal_number r.bid_sats l.bid_sats bids, txids))
      ]
]

-- The first request of a list is in order after a request.
abbrev pub MayFollow : BmmRequest → List BmmRequest → Type 0
MayFollow request [] = Unit
MayFollow request (next ∷ rest) = InOrder request next

-- Each request is in order with the next one.
abbrev pub IsOrdered : List BmmRequest → Type 0
IsOrdered [] = Unit
IsOrdered (request ∷ rest) = MayFollow request rest × IsOrdered rest

insert_request-MayFollow :
    (first request : BmmRequest) (rest : List BmmRequest)
    → InOrder first request
    → MayFollow first rest
    → MayFollow first (insert_request request rest)
unfolding insert_request
insert_request-MayFollow first request [] h f = h
insert_request-MayFollow first request (next ∷ rest) h f =
    elim (Bool-cases (may_precede request next)) [ inl e ↦ rw e h | inr e ↦ rw e f ]

insert_request-IsOrdered :
    (request : BmmRequest) (rest : List BmmRequest)
    → IsOrdered rest
    → IsOrdered (insert_request request rest)
unfolding insert_request
insert_request-IsOrdered request [] o = (tt, tt)
insert_request-IsOrdered request (next ∷ rest) o = elim (Bool-cases (may_precede request next)) [
  | inl e ↦ rw e (may_precede-InOrder request next e, o)
  | inr e ↦ rw e (
    insert_request-MayFollow next request rest
        (may_precede-InOrder next request (may_precede-total request next e)) o.0,
    insert_request-IsOrdered request rest o.1,
  )
]

sort_requests-IsOrdered : (requests : List BmmRequest) → IsOrdered (sort_requests requests)
unfolding sort_requests
sort_requests-IsOrdered [] = tt
sort_requests-IsOrdered (request ∷ rest) =
    insert_request-IsOrdered request (sort_requests rest) (sort_requests-IsOrdered rest)

insert_request-All {κ} :
    (P : BmmRequest → Type κ) (request : BmmRequest) (rest : List BmmRequest)
    → P request
    → All P rest
    → All P (insert_request request rest)
unfolding insert_request
insert_request-All P request [] p a = (p, tt)
insert_request-All P request (next ∷ rest) p a = elim (Bool-cases (may_precede request next)) [
  | inl e ↦ rw e (p, a)
  | inr e ↦ rw e (a.0, insert_request-All P request rest p a.1)
]

sort_requests-All {κ} :
    (P : BmmRequest → Type κ) (requests : List BmmRequest)
    → All P requests
    → All P (sort_requests requests)
unfolding sort_requests
sort_requests-All P [] a = tt
sort_requests-All P (request ∷ rest) a =
    insert_request-All P request (sort_requests rest) a.0 (sort_requests-All P rest a.1)

-- Two requests have not one identity, in either order of the test.
abbrev pub Differ : BmmRequest → BmmRequest → Type 0
Differ l r = (has_identity l r ≡ false) × (has_identity r l ≡ false)

-- No two requests have one identity.
abbrev pub IsUnique : List BmmRequest → Type 0
IsUnique [] = Unit
IsUnique (request ∷ rest) = All (Differ request) rest × IsUnique rest

insert_request-IsUnique :
    (request : BmmRequest) (rest : List BmmRequest)
    → All (Differ request) rest
    → IsUnique rest
    → IsUnique (insert_request request rest)
unfolding insert_request
insert_request-IsUnique request [] a u = (tt, tt)
insert_request-IsUnique request (next ∷ rest) a u = elim (Bool-cases (may_precede request next)) [
  | inl e ↦ rw e (a, u)
  | inr e ↦ rw e (
    insert_request-All (Differ next) request rest (a.0.1, a.0.0) u.0,
    insert_request-IsUnique request rest a.1 u.1,
  )
]

sort_requests-IsUnique :
    (requests : List BmmRequest) → IsUnique requests → IsUnique (sort_requests requests)
unfolding sort_requests
sort_requests-IsUnique [] u = tt
sort_requests-IsUnique (request ∷ rest) u =
    insert_request-IsUnique request (sort_requests rest)
      (sort_requests-All (Differ request) rest u.0) (sort_requests-IsUnique rest u.1)

same_bytes-sym : (a b : Bytes) → same bytes_discrete a b ≡ same bytes_discrete b a
same_bytes-sym a b = elim (bytes_discrete a b) [ yes p ↦ rw p refl | no n ↦ ground arith ]

same_number-sym : (a b : ℕ) → (a == b) ≡ (b == a)
same_number-sym a b = ground arith

has_identity-sym : (l r : BmmRequest) → has_identity l r ≡ false → has_identity r l ≡ false
unfolding has_identity
has_identity-sym l r e =
    rw (same_number-sym r.sidechain_number l.sidechain_number, same_bytes-sym r.txid l.txid) e

any_none : (a b : Bool) → a || b ≡ false → (a ≡ false) × (b ≡ false)
any_none a b e = ground arith

none_of : (a : Bool) → not a ≡ true → a ≡ false
none_of a e = ground arith

-- What follows the requests before has none of their identities.
abbrev IsFresh : List BmmRequest → List BmmRequest → Type 0
IsFresh before rest = All (λ request. any (has_identity request) before ≡ false) rest

keep-IsFresh :
    (first : BmmRequest) (before rest : List BmmRequest)
    → IsFresh (first ∷ before) rest
    → IsFresh before rest × All (Differ first) rest
keep-IsFresh first before [] f = (tt, tt)
keep-IsFresh first before (request ∷ rest) f =
    let (h, t) = keep-IsFresh first before rest f.1 in
    let (e, others) = any_none (has_identity request first) _ f.0 in
    ((others, h), ((has_identity-sym request first e, e), t))

check_identities-ok :
    (before requests : List BmmRequest)
    → check_identities before requests ≡ ok tt
    → IsFresh before requests × IsUnique requests
unfolding check_identities
check_identities-ok before [] e = (tt, tt)
check_identities-ok before (request ∷ rest) e =
    let (fresh, e1) = ensure-ok _ _ _ tt e in
    let (f, u) = check_identities-ok (request ∷ before) rest e1 in
    let (kept, others) = keep-IsFresh request before rest f in
    ((none_of _ fresh, kept), (others, u))

-- A check that held before a value that is returned.
then_ok {ℓ} :
    {A : Type ℓ} (first : Result (Unit {0})) (rest : Result A) (a : A)
    → (first >> rest) ≡ ok a
    → (first ≡ ok tt) × (rest ≡ ok a)
then_ok (ok tt) rest a e = (refl, e)
then_ok (err x) rest a e = absurd (ground arith)

-- A request whose slot is a byte and whose hashes have 32 bytes.
abbrev pub IsChecked : BmmRequest → Type 0
IsChecked request =
    (request.sidechain_number ≤ 255)
    × (length request.txid ≡ 32)
    × (length request.critical_hash ≡ 32)

same_value {ℓ} : {A : Type ℓ} (a b : A) → ok a ≡ ok b → a ≡ b
same_value a b e = ground arith

require_32_bytes-ok :
    (value : Bytes) (field : String) (b : Bytes)
    → require_32_bytes value field ≡ ok b
    → length b ≡ 32
unfolding require_32_bytes
require_32_bytes-ok value field b e =
    let (size, kept) = ensure-ok (length value == 32) field (ok value) b e in
    sym (ap length (same_value value b kept)) ∙ equal_number (length value) 32 size

slot-ok : (value : ℕ) (field : String) (n : ℕ) → slot value field ≡ ok n → n ≤ 255
unfolding slot
slot-ok value field n e =
    let (small, kept) = ensure-ok (leb value 255) field (ok value) n e in
    subst (λ m. m ≤ 255) (same_value value n kept) (leb→le value 255 small)

insert_request-length :
    (request : BmmRequest) (rest : List BmmRequest)
    → length (insert_request request rest) ≡ suc (length rest)
unfolding insert_request
insert_request-length request [] = refl
insert_request-length request (next ∷ rest) = elim (Bool-cases (may_precede request next)) [
  | inl e ↦ rw e refl
  | inr e ↦ rw e (ap suc (insert_request-length request rest))
]

sort_requests-length :
    (requests : List BmmRequest) → length (sort_requests requests) ≡ length requests
unfolding sort_requests
sort_requests-length [] = refl
sort_requests-length (request ∷ rest) =
    insert_request-length request (sort_requests rest) ∙ ap suc (sort_requests-length rest)

module _ (decode : Bytes → Result Bytes) (encode : List BmmRequest → Bytes) where
  fixed_hex-ok :
      (value : Option HexText) (field : String) (b : Bytes)
      → fixed_hex decode encode value field ≡ ok b
      → length b ≡ 32
  unfolding fixed_hex
  fixed_hex-ok value field b e =
      let (bytes, _, e1) = returned-ok (consensus_hex decode encode value field) _ b e in
      require_32_bytes-ok bytes field b e1

  convert_request-ok :
      (seen : SeenRequest) (request : BmmRequest)
      → convert_request decode encode seen ≡ ok request
      → IsChecked request
  unfolding convert_request
  convert_request-ok seen request e =
      let (_, e1) = then_ok _ _ request e in
      let (number, n, e2) = returned-ok (slot seen.sidechain_number _) _ request e1 in
      let (txid, t, e3) = returned-ok (fixed_hex decode encode seen.txid _) _ request e2 in
      let (critical, c, e4) =
        returned-ok (fixed_hex decode encode seen.critical_hash _) _ request e3 in
      subst IsChecked (same_value _ request e4) (
        slot-ok seen.sidechain_number _ number n,
        fixed_hex-ok seen.txid _ txid t,
        fixed_hex-ok seen.critical_hash _ critical c,
      )

  converted-IsChecked :
      (seen : List SeenRequest) (requests : List BmmRequest)
      → traverse (convert_request decode encode) seen ≡ ok requests
      → All IsChecked requests × (length requests ≡ length seen)
  converted-IsChecked [] requests e =
      subst (λ r. All IsChecked r × (length r ≡ 0)) (same_value [] requests e) (tt, refl)
  converted-IsChecked (s ∷ rest) requests e =
      let (request, e1, e2) = returned-ok (convert_request decode encode s) _ requests e in
      let (others, e3, e4) =
        returned-ok (traverse (convert_request decode encode) rest) _ requests e2 in
      let (checked, size) = converted-IsChecked rest others e3 in
      subst (λ r. All IsChecked r × (length r ≡ suc (length rest)))
        (same_value (request ∷ others) requests e4)
        ((convert_request-ok s request e1, checked), ap suc size)

  -- The requests of an auction that is converted are those of the reply in number. Each has a slot of
  -- one byte and hashes of 32 bytes, no two of them share slot and transaction, and they are in the
  -- order of the slots, within a slot the highest bid first, and with the same bid by transaction.
  pub convert_requests-ok :
      (seen : List SeenRequest) (requests : List BmmRequest)
      → convert_requests decode encode seen ≡ ok requests
      → (length requests ≡ length seen)
        × All IsChecked requests
        × IsUnique requests
        × IsOrdered requests
  unfolding convert_requests
  convert_requests-ok seen requests e =
      let (converted, e1, e2) =
        returned-ok (traverse (convert_request decode encode) seen) _ requests e in
      let (unique, e3) =
        then_ok (check_identities [] converted) (ok (sort_requests converted)) requests e2 in
      let (checked, size) = converted-IsChecked seen converted e1 in
      subst (λ r. (length r ≡ length seen) × All IsChecked r × IsUnique r × IsOrdered r)
        (same_value (sort_requests converted) requests e3)
        (
          sort_requests-length converted ∙ size,
          sort_requests-All IsChecked converted checked,
          sort_requests-IsUnique converted (check_identities-ok [] converted unique).1,
          sort_requests-IsOrdered converted,
        )
