-- ===== src/Connection/Notifications.antt =====
-- The notifications of cpp/database/SQLiteConnection.cpp: no statement of a transaction calls a
-- subscriber.
use react_native_salve_db.Prelude.{
  ℕ, zero, suc, ◌≡◌, refl, sym, ap, List, [], ◌∷◌, Option, none, some, Bytes, true, Result, ok, err,
}
use react_native_salve_db.Exec.{Exec, ◌>>=◌, continue, modify}
use react_native_salve_db.Sql.{SqlValue, QueryResult}
use react_native_salve_db.Connection.Prepare.{Statements, SqliteError}
use react_native_salve_db.Connection.Rows.{SchemaRegistry, FromInteger}
use react_native_salve_db.Connection.{
  Connection, Step, row, finished, broken, Done, done, undone, Sqlite, Callbacks, touch,
  flush_unless_in_transaction, exec_locked, after_exec, exec,
}
use react_native_salve_db.Connection.Execute.{
  bind_all, fresh_statement, with_row, step_loop, statement_of, after_steps, run_statement, execute,
}

-- a call of `execute` or of `exec`
pub data Call (N : Type 0) : Type 0 where
  query : Bytes → List (SqlValue N) → Call N
  command : Bytes → Call N

module _ {W H Cb N : Type 0} ⦃st : Statements W H⦄ ⦃q : Sqlite W H N⦄ ⦃f : FromInteger N⦄
    ⦃cs : Callbacks W H Cb⦄ (registry : SchemaRegistry) (fuel : ℕ) where
  -- calls one after another, whatever they throw
  unfoldable pub run_calls : List (Call N) → Connection H Cb × W → Connection H Cb × W
  run_calls [] s = s
  run_calls (query sql params ∷ calls) s = run_calls calls (execute registry fuel sql params s).1
  run_calls (command sql ∷ calls) s = run_calls calls (exec N sql s).1

module _ {W H Cb : Type 0} where
  abbrev pub InTransaction : Connection H Cb × W → Type 0
  InTransaction s = s.0.in_transaction ≡ true

  -- the same outcome, in a transaction
  abbrev Agree : {A : Type 0} → Exec (Connection H Cb × W) A → Exec (Connection H Cb × W) A → Type 0
  Agree m n = (s : Connection H Cb × W) → InTransaction s → (m s ≡ n s) × InTransaction (m s).1

  continue-Agree :
      {A B : Type 0} (r : Result A) (f g : A → Exec (Connection H Cb × W) B)
      (s : Connection H Cb × W)
      → InTransaction s
      → ((a : A) → Agree (f a) (g a))
      → (continue r f s ≡ continue r g s) × InTransaction (continue r f s).1
  continue-Agree (ok a) f g s t h = h a s t
  continue-Agree (err e) f g s t h = (refl, t)

  >>=-Agree :
      {A B : Type 0} (m n : Exec (Connection H Cb × W) A) (f g : A → Exec (Connection H Cb × W) B)
      → Agree m n
      → ((a : A) → Agree (f a) (g a))
      → Agree (m >>= f) (n >>= g)
  >>=-Agree m n f g h k s t = rw (sym (h s t).0) (continue-Agree (m s).0 f g (m s).1 (h s t).1 k)

module _ {W H Cb : Type 0} (N : Type 0) ⦃q : Sqlite W H N⦄ where
  after_exec-InTransaction :
      (sql : Bytes) (c : Connection H Cb) (r : (Done × List Bytes) × W)
      → c.in_transaction ≡ true
      → InTransaction (after_exec N sql c r).1
  unfolding after_exec touch
  after_exec-InTransaction sql c ((done, tables), w) t = t
  after_exec-InTransaction sql c ((undone code message, tables), w) t = t

  exec_locked-Agree :
      (sql : Bytes) → Agree {W = W} {H = H} {Cb = Cb} (exec_locked N sql) (exec_locked N sql)
  unfolding exec_locked
  exec_locked-Agree sql (c, w) t = (refl, after_exec-InTransaction sql c (q.exec sql w) t)

module _ {W H Cb : Type 0} where
  flush-InTransaction :
      (cs₁ cs₂ : Callbacks W H Cb) (c : Connection H Cb) (w : W)
      → c.in_transaction ≡ true
      → (flush_unless_in_transaction ⦃cs = cs₁⦄ (c, w)
          ≡ flush_unless_in_transaction ⦃cs = cs₂⦄ (c, w))
        × InTransaction (flush_unless_in_transaction ⦃cs = cs₁⦄ (c, w))
  unfolding flush_unless_in_transaction
  flush-InTransaction cs₁ cs₂ c w t = rw t (refl, refl)

module _ {W H Cb N : Type 0} ⦃q : Sqlite W H N⦄ ⦃f : FromInteger N⦄
    (registry : SchemaRegistry) where
  step-InTransaction :
      (fuel : ℕ) (stmt : H) (r : QueryResult N) (c : Connection H Cb) (w : W)
      (p : (Step N × List Bytes) × W)
      → q.step stmt w ≡ p
      → ((r' : QueryResult N)
          → Agree {W = W} {H = H} {Cb = Cb}
              (step_loop registry fuel stmt r')
              (step_loop registry fuel stmt r'))
      → c.in_transaction ≡ true
      → InTransaction (step_loop registry (suc fuel) stmt r (c, w)).1
  unfolding step_loop touch
  step-InTransaction fuel stmt r c w ((row header cells, tables), w') e ih t =
      rw (step_loop, e) (ih (with_row registry r header cells) _ t).1
  step-InTransaction fuel stmt r c w ((finished, tables), w') e ih t = rw (step_loop, e) t
  step-InTransaction fuel stmt r c w ((broken x, tables), w') e ih t = rw (step_loop, e) t

  step_loop-Agree :
      (fuel : ℕ) (stmt : H) (r : QueryResult N)
      → Agree {W = W} {H = H} {Cb = Cb}
          (step_loop registry fuel stmt r)
          (step_loop registry fuel stmt r)
  unfolding step_loop
  step_loop-Agree zero stmt r s t = (refl, t)
  step_loop-Agree (suc fuel) stmt r (c, w) t =
      (refl, step-InTransaction fuel stmt r c w (q.step stmt w) refl (step_loop-Agree fuel stmt) t)

module _ {W H Cb : Type 0} (N : Type 0) ⦃q : Sqlite W H N⦄ (cs₁ cs₂ : Callbacks W H Cb) where
  exec-Agree : (sql : Bytes) → Agree (exec N ⦃cs = cs₁⦄ sql) (exec N ⦃cs = cs₂⦄ sql)
  unfolding exec
  exec-Agree sql =
      >>=-Agree (exec_locked {W = W} {H = H} {Cb = Cb} N sql) (exec_locked N sql)
        (λ u. modify (flush_unless_in_transaction ⦃cs = cs₁⦄))
        (λ u. modify (flush_unless_in_transaction ⦃cs = cs₂⦄)) (exec_locked-Agree N sql)
        λ u (c, w) t.
          let (same, kept) = flush-InTransaction cs₁ cs₂ c w t in (ap (λ s. (ok tt, s)) same, kept)

module _ {W H Cb N : Type 0} ⦃st : Statements W H⦄ ⦃q : Sqlite W H N⦄ ⦃f : FromInteger N⦄
    (cs₁ cs₂ : Callbacks W H Cb) (registry : SchemaRegistry) (fuel : ℕ) where
  after_steps-Agree :
      (stmt : H) (x : QueryResult N × Option SqliteError)
      → Agree (after_steps ⦃cs = cs₁⦄ stmt x) (after_steps ⦃cs = cs₂⦄ stmt x)
  unfolding after_steps
  after_steps-Agree stmt (r, none) (c, w) t =
      let (same, kept) = flush-InTransaction cs₁ cs₂ c (fresh_statement N stmt w) t in
      (ap (λ s. (ok r, s)) same, kept)
  after_steps-Agree stmt (r, some e) (c, w) t = (refl, t)

  run_statement-Agree :
      (params : List (SqlValue N)) (stmt : H)
      → Agree
          (run_statement ⦃cs = cs₁⦄ registry fuel params stmt)
          (run_statement ⦃cs = cs₂⦄ registry fuel params stmt)
  unfolding run_statement
  run_statement-Agree params stmt (c, w) t =
      >>=-Agree (step_loop registry fuel stmt (record { columns = []; rows = [] }))
        (step_loop registry fuel stmt (record { columns = []; rows = [] }))
        (after_steps ⦃cs = cs₁⦄ stmt) (after_steps ⦃cs = cs₂⦄ stmt)
        (step_loop-Agree registry fuel stmt _) (after_steps-Agree stmt)
        (c, bind_all stmt 1 params (fresh_statement N stmt w)) t

  execute-Agree :
      (sql : Bytes) (params : List (SqlValue N))
      → Agree
          (execute ⦃cs = cs₁⦄ registry fuel sql params)
          (execute ⦃cs = cs₂⦄ registry fuel sql params)
  unfolding execute statement_of
  execute-Agree sql params =
      >>=-Agree (statement_of {W = W} {H = H} {Cb = Cb} sql) (statement_of sql)
        (run_statement ⦃cs = cs₁⦄ registry fuel params)
        (run_statement ⦃cs = cs₂⦄ registry fuel params) (λ s t. (refl, t))
        (run_statement-Agree params)

  -- While the connection's own flag says that a transaction is open, calls of execute and exec, whatever
  -- they throw, come to the same whatever the subscribers would do: none of them is called. The flag stays
  -- set; what SQLite makes of its transaction meanwhile is not said.
  pub run_calls-waits :
      (calls : List (Call N)) (s : Connection H Cb × W)
      → InTransaction s
      → (run_calls ⦃cs = cs₁⦄ registry fuel calls s ≡ run_calls ⦃cs = cs₂⦄ registry fuel calls s)
        × InTransaction (run_calls ⦃cs = cs₁⦄ registry fuel calls s)
  unfolding run_calls
  run_calls-waits [] s t = (refl, t)
  run_calls-waits (query sql params ∷ calls) s t =
      let (same, kept) = execute-Agree sql params s t in
      rw (sym same) (run_calls-waits calls _ kept)
  run_calls-waits (command sql ∷ calls) s t =
      let (same, kept) = exec-Agree N cs₁ cs₂ sql s t in
      rw (sym same) (run_calls-waits calls _ kept)
