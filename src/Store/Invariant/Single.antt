-- ===== src/Store/Invariant/Single.antt =====
-- An update of `history_coverage` that wrote one row, which is the row of a scope.
use bip300_monitor.Base.{ℕ, ◌≡◌, ◌≢◌, sym, ◌∙◌, Bool, true, some, arith}
use bip300_monitor.Failure.{ok}
use bip300_monitor.Store.Types.{CoverageKey, complete}
use bip300_monitor.Store.Rows.{Row, Db, has_key, find_row}
use bip300_monitor.Store.Rows.Frame.{
  Touches, find_row-of_count, find_row-update_self, find_row-update_ne,
}
use bip300_monitor.Store.Update.{update_coverage}
use bip300_monitor.Store.Update.Proved.{update_coverage-IsProved}
use bip300_monitor.Store.Update.Effect.{update_coverage-ok}
use bip300_monitor.Store.Certify.Chain.{IsProved}
use bip300_monitor.Store.Invariant.{Covers, IsSound, IsConsistent, update_coverage-IsConsistent}

-- The rows of the other scopes are the same.
abbrev pub SameElsewhere : CoverageKey → Db → Db → Type 0
SameElsewhere key a b = (k : CoverageKey) → k ≢ key → find_row k a.coverage ≡ find_row k b.coverage

pub one_row-update :
    (key : CoverageKey) (where_ : Row → Bool) (f : Row → Row) (db db' : Db) (n : ℕ)
    → ((r : Row) → where_ r ≡ true → has_key key r ≡ true)
    → ((r : Row) → (f r).key ≡ r.key)
    → ((r : Row) → IsSound r → Covers (f r))
    → IsConsistent db
    → update_coverage where_ f db ≡ ok (db', n)
    → n ≡ 1
    → (r : Row) × (find_row key db.coverage ≡ some r)
      × (where_ r ≡ true)
      × (find_row key db'.coverage ≡ some (f r))
      × IsConsistent db'
      × ((f r).status ≡ complete → IsProved db (f r))
      × (db'.facts ≡ db.facts)
      × SameElsewhere key db' db
one_row-update key where_ f db db' n keyed fixed keep c e one =
    let (w, m, a) = update_coverage-ok where_ f db db' n e in
    let t : Touches key where_ f =
      λ r h. (ground (arith, keyed r h), ground (arith, keyed r h, fixed r)) in
    let (r, q, h) = find_row-of_count key where_ db.coverage keyed (c.unique key) (sym m ∙ one) in
    let moved = find_row-update_self key where_ f t r db.coverage q h in
    (
      r,
      q,
      h,
      rw w moved,
      update_coverage-IsConsistent key where_ f db db' n t (λ x _ s. keep x s) c e,
      update_coverage-IsProved key where_ f r db (db', n) keyed q h e,
      ground (arith, w),
      λ k ne. rw w (find_row-update_ne key where_ f t k db.coverage ne),
    )
