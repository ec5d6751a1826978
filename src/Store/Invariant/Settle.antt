-- ===== src/Store/Invariant/Settle.antt =====
-- `settle_history_failure` and then `resume_history` of shared/src/store.rs on a running scope.
use bip300_monitor.Base.{
  ◌≡◌, refl, ◌∙◌, ◌≤◌, is_some, ap, same_self, Option, none, Bool, true, false, some, List, [], ◌∷◌,
  String, All, filter, map, Bool-cases, inl, inr, arith, same, if◌then◌else◌,
}
use bip300_monitor.Failure.{ok}
use bip300_monitor.Store.Types.{
  Store, ScopeKey, CoverageKey, coverage_key, coverage_key_discrete, HistoryStatus, running,
  complete, error, superseded, status_discrete, validate_history_scope,
}
use bip300_monitor.Store.Rows.{
  Row, Db, row_is_allowed, has_key, find_row, update_rows, count_rows, completion_shape,
}
use bip300_monitor.Store.Rows.Frame.{
  find_row-update_self, find_row-key, All-find_row, count_rows_mono,
}
use bip300_monitor.Store.Certify.{certify_history}
use bip300_monitor.Store.Update.{admit_row, admit_rows, update_coverage}
use bip300_monitor.Store.History.{
  running_at, resumable_at, settled, resumed, scope_is_listed, settle_history_failure,
  resume_history,
}
use bip300_monitor.Store.Invariant.Cursor.{settle_history_failure-IsConsistent}
use bip300_monitor.Store.Invariant.{IsSound, IsConsistent}

-- A row that the database takes without looking at the facts.
abbrev IsPlain : Row → Type 0
IsPlain r = (row_is_allowed r ≡ true) × (same status_discrete r.status complete ≡ false)

admit_row-IsPlain : (r : Row) (db : Db) → IsPlain r → admit_row r db ≡ ok db
unfolding admit_row certify_history
admit_row-IsPlain r db p = rw (p.0, p.1) refl

admit_rows-IsPlain : (rs : List Row) (db : Db) → All IsPlain rs → admit_rows rs db ≡ ok db
unfolding admit_rows
admit_rows-IsPlain [] db a = refl
admit_rows-IsPlain (r ∷ rs) db a = rw (admit_row-IsPlain r db a.0) (admit_rows-IsPlain rs db a.1)

written-IsPlain :
    (p : Row → Bool) (f : Row → Row) (rows : List Row)
    → ((r : Row) → p r ≡ true → IsSound r → IsPlain (f r))
    → All IsSound rows
    → All IsPlain (map f (filter p rows))
written-IsPlain p f [] h a = tt
written-IsPlain p f (r ∷ rs) h a = elim (Bool-cases (p r)) [
  | inl e ↦ rw e (h r e a.0, written-IsPlain p f rs h a.1)
  | inr e ↦ rw e (written-IsPlain p f rs h a.1)
]

-- Such an update is never refused.
update_coverage-IsPlain :
    (p : Row → Bool) (f : Row → Row) (db : Db)
    → ((r : Row) → p r ≡ true → IsSound r → IsPlain (f r))
    → IsConsistent db
    → update_coverage p f db
      ≡ ok (record db { coverage = update_rows p f db.coverage }, count_rows p db.coverage)
unfolding update_coverage
update_coverage-IsPlain p f db h c =
    rw
      (admit_rows-IsPlain (map f (filter p db.coverage)) db
        (written-IsPlain p f db.coverage h c.rows))
      refl

-- The constraints of a row that is not complete do not look at the status or the error.
row_is_allowed-unfinished :
    (r : Row) (s : HistoryStatus) (text : Option String)
    → same status_discrete r.status complete ≡ false
    → same status_discrete s complete ≡ false
    → row_is_allowed (record r { status = s; last_error = text }) ≡ row_is_allowed r
unfolding row_is_allowed completion_shape
row_is_allowed-unfinished r s text e e' = rw (e, e') refl

settled-IsPlain :
    (key : CoverageKey) (listed : Bool) (text : String) (r : Row)
    → running_at key r ≡ true
    → IsSound r
    → IsPlain (settled listed text r)
unfolding status_discrete
settled-IsPlain key true text r h s =
    (row_is_allowed-unfinished r error (some text) (ground arith) refl ∙ s.allowed, refl)
settled-IsPlain key false text r h s = (
  row_is_allowed-unfinished r superseded (some "sidechain instance is no longer active")
        (ground arith) refl
      ∙ s.allowed,
  refl,
)

resumed-IsPlain :
    (key : CoverageKey) (r : Row) → resumable_at key r ≡ true → IsSound r → IsPlain (resumed r)
unfolding status_discrete
resumed-IsPlain key r h s =
    (row_is_allowed-unfinished r running none (ground arith) refl ∙ s.allowed, refl)

-- A row that is not complete has a cursor.
next_of_unfinished :
    (r : Row)
    → row_is_allowed r ≡ true
    → same status_discrete r.status complete ≡ false
    → is_some r.next_hash ≡ true
unfolding row_is_allowed completion_shape
next_of_unfinished r a e = ground (arith, a, e)

count_rows-found :
    (key : CoverageKey) (p : Row → Bool) (r : Row) (rows : List Row)
    → ((x : Row) → p x ≡ true → has_key key x ≡ true)
    → count_rows (has_key key) rows ≤ 1
    → find_row key rows ≡ some r
    → p r ≡ true
    → count_rows p rows ≡ 1
unfolding count_rows find_row
count_rows-found key p r [] k u q h = absurd (ground arith)
count_rows-found key p r (x ∷ xs) k u q h =
    ground (arith, k x, count_rows_mono p (has_key key) xs k, count_rows-found key p r xs k)

module _ (store : Store) (scope : ScopeKey) (db : Db) (c : IsConsistent db) (r : Row)
    (valid : validate_history_scope scope ≡ ok tt)
    (found : find_row (coverage_key store scope) db.coverage ≡ some r)
    (stopped : resumable_at (coverage_key store scope) r ≡ true) where
  abbrev here : CoverageKey
  here = coverage_key store scope

  resume_run :
      resume_history store scope db
      ≡ (ok tt, record db { coverage = update_rows (resumable_at here) resumed db.coverage })
  unfolding resume_history
  resume_run =
      rw
        (
          valid,
          update_coverage-IsPlain (resumable_at here) resumed db (resumed-IsPlain here) c,
          count_rows-found here (resumable_at here) r db.coverage (λ x h. ground arith)
              (c.unique here) found stopped,
        )
        refl

  resume_row : find_row here (resume_history store scope db).1.coverage ≡ some (resumed r)
  resume_row = rw resume_run (
      find_row-update_self here (resumable_at here) resumed (λ x h. (ground arith, ground arith)) r
        db.coverage found stopped)

module _ (store : Store) (scope : ScopeKey) (text : String) (db : Db) (c : IsConsistent db)
    (r : Row) (valid : validate_history_scope scope ≡ ok tt)
    (found : find_row (coverage_key store scope) db.coverage ≡ some r)
    (walking : r.status ≡ running) where
  abbrev key : CoverageKey
  key = coverage_key store scope

  abbrev listed : Bool
  listed = scope_is_listed store scope db

  at_row : running_at key r ≡ true
  at_row =
      let e : r.key ≡ key = find_row-key key db.coverage r found in
      let h = same_self coverage_key_discrete r.key in
      let t = same_self status_discrete running in rw (walking, ← e) (ground (arith, h, t))

  settle_run : settle_history_failure store scope text db ≡ (
    ok (settled listed text r).status,
    record db { coverage = update_rows (running_at key) (settled listed text) db.coverage },
  )
  unfolding settle_history_failure
  settle_run =
      let moved =
        find_row-update_self key (running_at key) (settled listed text)
          (λ x h. (ground arith, ground arith)) r db.coverage found at_row in
      rw
        (
          valid,
          update_coverage-IsPlain (running_at key) (settled listed text) db
              (settled-IsPlain key listed text) c,
          moved,
        )
        refl

  settled_row :
      find_row key (settle_history_failure store scope text db).1.coverage
      ≡ some (settled listed text r)
  settled_row = rw settle_run (
      find_row-update_self key (running_at key) (settled listed text)
        (λ x h. (ground arith, ground arith)) r db.coverage found at_row)

  settled_is_resumable : resumable_at key (settled listed text r) ≡ true
  unfolding status_discrete
  settled_is_resumable =
      let e : r.key ≡ key = find_row-key key db.coverage r found in
      let h = same_self coverage_key_discrete r.key in
      let sound = All-find_row IsSound key db.coverage r c.rows found in
      let n = next_of_unfinished r sound.allowed (rw walking refl) in
      elim (Bool-cases listed) [
        | inl l ↦ rw (l, ← e) (ground (arith, h, n))
        | inr l ↦ rw (l, ← e) (ground (arith, h, n))
      ]

  -- From a consistent coverage table and a valid scope whose row is running: settling a failure
  -- succeeds with the status that it wrote, `error` where the scope's instance is current and
  -- `superseded` where it is not. Resuming the scope then succeeds too, and the row is as before, with
  -- its cursor, its floor and its counts, but for the error text, which is cleared.
  pub settle_history_failure-resumed :
      let failed = settle_history_failure store scope text db in
      let again = resume_history store scope failed.1 in
      (failed.0 ≡ ok (if scope_is_listed store scope db then error else superseded))
      × (find_row key failed.1.coverage ≡ some (settled listed text r))
      × (again.0 ≡ ok tt)
      × (find_row key again.1.coverage ≡ some (record r { status = running; last_error = none }))
  settle_history_failure-resumed =
      let c' = settle_history_failure-IsConsistent store scope db c text in
      let after = (settle_history_failure store scope text db).1 in
      (
        ap (λ x. x.0) settle_run,
        settled_row,
        ap (λ x. x.0)
            (resume_run store scope after c' (settled listed text r) valid settled_row
              settled_is_resumable),
        resume_row store scope after c' (settled listed text r) valid settled_row
            settled_is_resumable,
      )
