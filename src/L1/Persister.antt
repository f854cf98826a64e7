-- ===== src/L1/Persister.antt =====
-- src/l1.rs: `Persister`, the wallet's change sets in the sqlite database. The crates rusqlite and
-- bdk_wallet are a record of operations. A transaction that is dropped before its `commit` is rolled back:
-- the database stays what it was.
use faucet_api.Common.{
  ◌∙◌, ok-injective, ap, ◌≡◌, ◌⊎◌, inl, inr, Result, ok, err, Result-cases, arith,
}

-- What the code uses of rusqlite and of `ChangeSet`.
pub record Sqlite : Type 1 where
  pub Connection : Type 0
  pub Transaction : Type 0
  pub ChangeSet : Type 0
  pub Error : Type 0
  pub transaction : Connection → Result Transaction Error
  pub init_sqlite_tables : Transaction → Result Transaction Error
  pub from_sqlite : Transaction → Result ChangeSet Error
  pub persist_to_sqlite : ChangeSet → Transaction → Result Transaction Error
  pub commit : Transaction → Result Connection Error

module _ (db : Sqlite) where
  open db use {
    Connection, Transaction, ChangeSet, Error, transaction, init_sqlite_tables, from_sqlite,
    persist_to_sqlite, commit,
  }

  -- What follows the opening of the transaction in `Persister::initialize`.
  unfoldable pub read_changeset : Transaction → Result (ChangeSet × Connection) Error
  read_changeset db_tx = elim (init_sqlite_tables db_tx) [
    | err e ↦ err e
    | ok db_tx' ↦ elim (from_sqlite db_tx') [
      | err e ↦ err e
      | ok changeset ↦ elim (commit db_tx') [ err e ↦ err e | ok c ↦ ok (changeset, c) ]
    ]
  ]

  -- `Persister::initialize`
  unfoldable pub initialize : Connection → Result ChangeSet Error × Connection
  unfolding read_changeset
  initialize c = elim (transaction c) [
    | err e ↦ (err e, c)
    | ok db_tx ↦ elim (read_changeset db_tx) [ err e ↦ (err e, c) | ok r ↦ (ok r.0, r.1) ]
  ]

  -- What follows the opening of the transaction in `Persister::persist`.
  unfoldable pub write_changeset : ChangeSet → Transaction → Result Connection Error
  write_changeset changeset db_tx = elim (persist_to_sqlite changeset db_tx) [
    | err e ↦ err e
    | ok db_tx' ↦ commit db_tx'
  ]

  -- `Persister::persist`
  unfoldable pub persist : ChangeSet → Connection → Result (Unit {0}) Error × Connection
  unfolding write_changeset
  persist changeset c = elim (transaction c) [
    | err e ↦ (err e, c)
    | ok db_tx ↦ elim (write_changeset changeset db_tx) [ err e ↦ (err e, c) | ok c' ↦ (ok tt, c') ]
  ]

  -- What the crates document: a transaction begins with what the database holds, the creation of missing
  -- tables changes no row, a read gives what is there, a write merges, a commit keeps it.
  pub record Laws (merge : ChangeSet → ChangeSet → ChangeSet) : Type 0 where
    pub held : Connection → ChangeSet
    pub seen : Transaction → ChangeSet
    pub transaction_seen :
        {c : Connection} {t : Transaction} → transaction c ≡ ok t → seen t ≡ held c
    pub init_seen : {t t' : Transaction} → init_sqlite_tables t ≡ ok t' → seen t' ≡ seen t
    pub from_seen : {t : Transaction} {s : ChangeSet} → from_sqlite t ≡ ok s → s ≡ seen t
    pub persist_seen :
        {t t' : Transaction} {s : ChangeSet}
        → persist_to_sqlite s t ≡ ok t'
        → seen t' ≡ merge (seen t) s
    pub commit_held : {t : Transaction} {c : Connection} → commit t ≡ ok c → held c ≡ seen t

  module _ (merge : ChangeSet → ChangeSet → ChangeSet) (laws : Laws merge) where
    open laws use {held, seen, transaction_seen, init_seen, from_seen, persist_seen, commit_held}

    write_changeset-held :
        (changeset : ChangeSet) (t : Transaction) {c : Connection}
        → write_changeset changeset t ≡ ok c
        → held c ≡ merge (seen t) changeset
    unfolding write_changeset
    write_changeset-held changeset t p = elim (Result-cases (persist_to_sqlite changeset t)) [
      | inr (e, q) ↦ ground arith
      | inl (t', q) ↦
          let committed : commit t' ≡ ok _ = ground arith in commit_held committed ∙ persist_seen q
    ]

    read_changeset-held :
        (t : Transaction) {r : ChangeSet × Connection}
        → read_changeset t ≡ ok r
        → (r.0 ≡ seen t) × (held r.1 ≡ seen t)
    unfolding read_changeset
    read_changeset-held t {r} p = elim (Result-cases (init_sqlite_tables t)) [
      | inr (e, q) ↦ ground arith
      | inl (t', q) ↦ elim (Result-cases (from_sqlite t')) [
        | inr (e, q') ↦ ground arith
        | inl (s, q') ↦ elim (Result-cases (commit t')) [
          | inr (e, q'') ↦ ground arith
          | inl (c, q'') ↦
              let ran : read_changeset t ≡ ok (s, c) = ground arith in
              let both : r ≡ (s, c) = ok-injective p ran in
              let start = init_seen q in
              (
                ap (λ r. r.0) both ∙ from_seen q' ∙ start,
                ap (λ r. held r.1) both ∙ commit_held q'' ∙ start,
              )
        ]
      ]
    ]

    -- `persist` is all or nothing: it succeeds and the database holds the old change set merged with the
    -- new one, or it gives an error and the database is the old one.
    pub persist_all_or_nothing :
        (changeset : ChangeSet) (c : Connection)
        → ((persist changeset c).0 ≡ ok tt)
            × (held (persist changeset c).1 ≡ merge (held c) changeset)
          ⊎ ((e : Error) × (persist changeset c ≡ (err e, c)))
    unfolding persist
    persist_all_or_nothing changeset c = elim (Result-cases (transaction c)) [
      | inr (e, p) ↦ inr (e, ground arith)
      | inl (t, p) ↦ elim (Result-cases (write_changeset changeset t)) [
        | inr (e, q) ↦ inr (e, ground arith)
        | inl (c', q) ↦
            let written = write_changeset-held changeset t q in
            let begun = transaction_seen p in
            let result : persist changeset c ≡ (ok tt, c') = ground arith in
            inl (
              ap (λ r. r.0) result,
              ap (λ r. held r.1) result ∙ written ∙ ap (λ s. merge s changeset) begun,
            )
      ]
    ]

    -- `initialize` reads what is held and changes nothing of it, or it gives an error and the database is
    -- the old one.
    pub initialize-held :
        (c : Connection)
        → ((initialize c).0 ≡ ok (held c)) × (held (initialize c).1 ≡ held c)
          ⊎ ((e : Error) × (initialize c ≡ (err e, c)))
    unfolding initialize
    initialize-held c = elim (Result-cases (transaction c)) [
      | inr (e, p) ↦ inr (e, ground arith)
      | inl (t, p) ↦ elim (Result-cases (read_changeset t)) [
        | inr (e, q) ↦ inr (e, ground arith)
        | inl (r, q) ↦
            let read = read_changeset-held t q in
            let begun = transaction_seen p in
            let result : initialize c ≡ (ok r.0, r.1) = ground arith in
            inl (
              ap (λ r. r.0) result ∙ ap ok (read.0 ∙ begun),
              ap (λ r. held r.1) result ∙ read.1 ∙ begun,
            )
      ]
    ]

    -- What `persist` stored is there at the next `initialize`: if both succeed, `initialize` returns the
    -- change set that was held before, merged with the one that was persisted.
    pub initialize-persist :
        (changeset : ChangeSet) (c : Connection) {read : ChangeSet}
        → (persist changeset c).0 ≡ ok tt
        → (initialize (persist changeset c).1).0 ≡ ok read
        → read ≡ merge (held c) changeset
    initialize-persist changeset c written found = elim (persist_all_or_nothing changeset c) [
      | inr (e, p) ↦ ground arith
      | inl (p, kept) ↦ elim (initialize-held (persist changeset c).1) [
        | inr (e, q) ↦ ground arith
        | inl (q, _) ↦ ok-injective found q ∙ kept
      ]
    ]
