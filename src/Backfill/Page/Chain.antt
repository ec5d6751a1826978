-- ===== src/Backfill/Page/Chain.antt =====
-- Pages as chains of headers, for `verify_page_with` and `blocks_through_floor` of
-- extractors/enforcer/src/backfill.rs.
use bip300_monitor.Base.{
  ℕ, suc, ◌+◌, ◌^◌, ◌≤◌, ◌<◌, ◌≡◌, ◌↔◌, min, refl, ap, some, List, [], ◌∷◌, length, last_or, All,
  arith, inl, inr,
}
use bip300_monitor.Failure.{ok, Result-cases, traverse}
use bip300_monitor.Proto.{ObservedBlock, BlockHeader}
use bip300_monitor.Store.Types.{required_height}
use bip300_monitor.Backfill.Page.{
  HistoryStream, blocks_through_floor, saturating_succ, verify_windows, verify_page_with,
}

-- Each header is the parent of the one before it.
abbrev pub ChainFrom : BlockHeader → List BlockHeader → Type 0
ChainFrom h [] = Unit
ChainFrom h (g ∷ gs) = (h.previous_hash ≡ g.hash) × (h.height ≡ suc g.height) × ChainFrom g gs

-- A page that starts at the cursor and has at most `requested` blocks.
abbrev pub IsPage : ObservedBlock → ℕ → List BlockHeader → Type 0
IsPage cursor requested [] = ⊥
IsPage cursor requested (h ∷ hs) =
    (h.hash ≡ cursor.hash)
    × (cursor.height ≡ some h.height)
    × ChainFrom h hs
    × (suc (length hs) ≤ requested)

-- The links as the loop over the windows sees them, with the saturating successor.
abbrev LooseFrom : BlockHeader → List BlockHeader → Type 0
LooseFrom h [] = Unit
LooseFrom h (g ∷ gs) =
    (h.previous_hash ≡ g.hash) × (h.height ≡ saturating_succ g.height) × LooseFrom g gs

loose_bound :
    (h : BlockHeader) (hs : List BlockHeader)
    → LooseFrom h hs
    → h.height ≤ (last_or h hs).height + length hs
loose_bound h [] l = omega arith
loose_bound h (g ∷ gs) l = omega (arith, loose_bound g gs l.2)

-- Where the ends are as far apart as there are blocks, no successor saturated.
tighten :
    (h : BlockHeader) (hs : List BlockHeader)
    → LooseFrom h hs
    → h.height ≡ (last_or h hs).height + length hs
    → ChainFrom h hs
tighten h [] l e = tt
tighten h (g ∷ gs) l e = (
  l.0,
  omega (arith, loose_bound g gs l.2),
  tighten g gs l.2 (omega (arith, loose_bound g gs l.2)),
)

module _ {P : Type 0} (stream : HistoryStream P) where
  window_step :
      (first second : P) (rest : List P) (h : BlockHeader)
      → stream.header first ≡ ok h
      → verify_windows stream (first ∷ second ∷ rest) ≡ ok tt
      → (g : BlockHeader) × (stream.header second ≡ ok g)
        × (h.previous_hash ≡ g.hash)
        × (h.height ≡ saturating_succ g.height)
        × (verify_windows stream (second ∷ rest) ≡ ok tt)
  unfolding verify_windows
  window_step first second rest h e v = elim (Result-cases (stream.header second)) [
    | inl (g, q) ↦ (g, q, ground arith, ground arith, ground arith)
    | inr (x, q) ↦ absurd (ground arith)
  ]

  windows_loose :
      (first : P) (rest : List P) (h : BlockHeader)
      → stream.header first ≡ ok h
      → verify_windows stream (first ∷ rest) ≡ ok tt
      → (hs : List BlockHeader) × (traverse stream.header rest ≡ ok hs)
        × LooseFrom h hs
        × (stream.header (last_or first rest) ≡ ok (last_or h hs))
        × (length rest ≡ length hs)
  windows_loose first [] h e v = ([], refl, tt, e, refl)
  windows_loose first (second ∷ rest) h e v =
      let (g, q, p, t, v') = window_step first second rest h e v in
      let (gs, r, l, z, n) = windows_loose second rest g q v' in
      (g ∷ gs, rw (q, r), (p, t, l), z, ap suc n)

  -- What the checks at the two ends have compared.
  page_ends :
      (first : P) (rest : List P) (cursor : ObservedBlock) (requested : ℕ)
      → verify_page_with stream (first ∷ rest) cursor requested ≡ ok tt
      → (h o : BlockHeader) × (stream.header first ≡ ok h)
        × (stream.header (last_or first rest) ≡ ok o)
        × (h.hash ≡ cursor.hash)
        × (cursor.height ≡ some h.height)
        × (verify_windows stream (first ∷ rest) ≡ ok tt)
        × (h.height ≡ o.height + length rest)
        × (suc (length rest) ≤ requested)
  unfolding verify_page_with required_height
  page_ends first rest cursor requested v = elim (Result-cases (stream.header first)) [
    | inr (x, q) ↦ absurd (ground arith)
    | inl (h, q) ↦ elim (Result-cases (stream.header (last_or first rest))) [
      | inr (x, z) ↦ absurd (ground arith)
      | inl (o, z) ↦
          (h, o, q, z, ground arith, ground arith, ground arith, ground arith, ground arith)
    ]
  ]

  -- A page that the checks let through has a readable header on every payload. It starts at the
  -- cursor's hash and height, each block is the parent of the one before it at one height less, and it
  -- has at least one and at most the requested number of blocks.
  pub verify_page_with-ok :
      (payloads : List P) (cursor : ObservedBlock) (requested : ℕ)
      → verify_page_with stream payloads cursor requested ≡ ok tt
      → (hs : List BlockHeader) × (traverse stream.header payloads ≡ ok hs)
        × IsPage cursor requested hs
  unfolding verify_page_with
  verify_page_with-ok [] cursor requested v = absurd (ground arith)
  verify_page_with-ok (first ∷ rest) cursor requested v =
      let (h, o, q, z, p, t, w, d, m) = page_ends first rest cursor requested v in
      let (hs, r, l, y, n) = windows_loose first rest h q w in
      (h ∷ hs, rw (q, r), (p, t, tighten h hs l (ground arith), omega arith))

  -- Each payload's header is read, in order.
  abbrev pub Reads : List P → List BlockHeader → Type 0
  Reads [] [] = Unit
  Reads (x ∷ xs) (h ∷ hs) = (stream.header x ≡ ok h) × Reads xs hs
  Reads _ _ = ⊥

  pub traverse-Reads :
      (xs : List P) (hs : List BlockHeader) → traverse stream.header xs ≡ ok hs → Reads xs hs
  traverse-Reads [] [] e = tt
  traverse-Reads [] (h ∷ hs) e = absurd (ground arith)
  traverse-Reads (x ∷ xs) hs e = elim (Result-cases (stream.header x)) [
    | inr (y, q) ↦ absurd (ground arith)
    | inl (h, q) ↦ elim (Result-cases (traverse stream.header xs)) [
      | inr (y, z) ↦ absurd (ground arith)
      | inl (gs, z) ↦ let p : hs ≡ h ∷ gs = ground arith in rw p (q, traverse-Reads xs gs z)
    ]
  ]

  pub Reads-length : (xs : List P) (hs : List BlockHeader) → Reads xs hs → length xs ≡ length hs
  Reads-length [] [] r = refl
  Reads-length [] (h ∷ hs) r = absurd r
  Reads-length (x ∷ xs) [] r = absurd r
  Reads-length (x ∷ xs) (h ∷ hs) r = ap suc (Reads-length xs hs r.1)

  chain_windows :
      (first : P) (rest : List P) (h : BlockHeader) (hs : List BlockHeader)
      → stream.header first ≡ ok h
      → Reads rest hs
      → h.height < 2 ^ 32
      → ChainFrom h hs
      → (verify_windows stream (first ∷ rest) ≡ ok tt)
        × (stream.header (last_or first rest) ≡ ok (last_or h hs))
        × (h.height ≡ (last_or h hs).height + length rest)
  unfolding verify_windows
  chain_windows first [] h [] q e b c = (refl, q, omega arith)
  chain_windows first [] h (g ∷ gs) q e b c = absurd e
  chain_windows first (second ∷ rest) h [] q e b c = absurd e
  chain_windows first (second ∷ rest) h (g ∷ gs) q e b c =
      let (w, l, n) = chain_windows second rest g gs e.0 e.1 (omega arith) c.2 in
      (rw (q, e.0) (ground arith), l, omega arith)

  -- A page whose headers can be read and form a chain from the cursor, at heights below 2^32 and within
  -- the requested length, passes the checks.
  pub verify_page_with-of_IsPage :
      (payloads : List P) (hs : List BlockHeader) (cursor : ObservedBlock) (requested : ℕ)
      → Reads payloads hs
      → All (λ h. h.height < 2 ^ 32) hs
      → IsPage cursor requested hs
      → verify_page_with stream payloads cursor requested ≡ ok tt
  unfolding verify_page_with required_height
  verify_page_with-of_IsPage [] [] cursor requested e b p = absurd p
  verify_page_with-of_IsPage [] (h ∷ hs) cursor requested e b p = absurd e
  verify_page_with-of_IsPage (x ∷ xs) [] cursor requested e b p = absurd e
  verify_page_with-of_IsPage (x ∷ xs) (h ∷ hs) cursor requested e b p =
      let (w, l, n) = chain_windows x xs h hs e.0 e.1 b.0 p.2 in
      ground (arith, Reads-length xs hs e.1)

chain_height :
    (h : BlockHeader) (hs : List BlockHeader)
    → ChainFrom h hs
    → h.height ≡ (last_or h hs).height + length hs
chain_height h [] c = omega arith
chain_height h (g ∷ gs) c = omega (arith, c.1, chain_height g gs c.2)

blocks_through_floor-ok :
    (height floor remaining : ℕ)
    → blocks_through_floor height (some floor) ≡ ok remaining
    → height ≡ floor + remaining
unfolding blocks_through_floor
blocks_through_floor-ok height floor remaining b = ground arith

page_ends_above :
    (h : BlockHeader) (hs : List BlockHeader) (cursor : ObservedBlock)
    (height floor remaining size : ℕ)
    → cursor.height ≡ some height
    → blocks_through_floor height (some floor) ≡ ok remaining
    → IsPage cursor (min remaining size) (h ∷ hs)
    → (floor < (last_or h hs).height)
      × ((suc (length hs) ≡ remaining) ↔ ((last_or h hs).height ≡ suc floor))
page_ends_above h hs cursor height floor remaining size e b p =
    let n = chain_height h hs p.2 in
    let same : h.height ≡ height = ground (arith, p.1) in
    let total = blocks_through_floor-ok height floor remaining b in
    let room : suc (length hs) ≤ remaining = ground (arith, p.3) in
    (
      omega (arith, n, same, total, room),
      (λ q. omega (arith, n, same, total, q), λ q. omega (arith, n, same, total, q)),
    )

-- The request of a page is cut at the floor of the cycle. A page that passed the checks for a request of
-- at most the `remaining` blocks of `blocks_through_floor` ends above the floor, and it has all of the
-- remaining blocks exactly when it ends right above the floor.
pub page_above_floor :
    {P : Type 0} (stream : HistoryStream P) (payloads : List P) (cursor : ObservedBlock)
    (height floor remaining size : ℕ) (h : BlockHeader) (hs : List BlockHeader)
    → cursor.height ≡ some height
    → blocks_through_floor height (some floor) ≡ ok remaining
    → verify_page_with stream payloads cursor (min remaining size) ≡ ok tt
    → traverse stream.header payloads ≡ ok (h ∷ hs)
    → (floor < (last_or h hs).height)
      × ((suc (length hs) ≡ remaining) ↔ ((last_or h hs).height ≡ suc floor))
page_above_floor stream payloads cursor height floor remaining size h hs e b v t =
    let (gs, q, p) = verify_page_with-ok stream payloads cursor (min remaining size) v in
    let same : gs ≡ h ∷ hs = ground (arith, q, t) in
    page_ends_above h hs cursor height floor remaining size e b (rw same at p)
