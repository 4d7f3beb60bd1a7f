-- ===== src/Transaction/Located.antt =====
-- Inside a transaction every statement runs in the database that its method is of.
use gosmo.Base.{
  ℕ, ◌||◌, ◌≡◌, ◌≢◌, refl, sym, ◌∙◌, true, false, Option, none, some, List, [], ◌∷◌, ok, err, Bytes,
  arith, All, Bool-cases, Option-cases, Result-cases, inl, inr, ◌⊎◌, str_eq, str_eq_sound,
  str_eq_ne, subst, and_right,
}
use gosmo.Script.{ScriptEntry}
use gosmo.Transaction.Calls.{
  server_exec_refused, server_exec_failed, server_exec_sent, database_exec_refused,
  database_exec_failed, database_exec_sent,
}
use gosmo.Transaction.Driver.{Error, SqlTx, IsLawful, use_text}
use gosmo.Transaction.{
  ServerTx, Sent, TxState, Step, Call, in_database, at, lost, fail, hold, switch_to, enter,
  server_conn, go_home, send, observe, server_exec, database_exec, exec, run_call, run_calls,
  commit_tx, refuse_or_commit, finish, begin, Outcome, in_transaction, roll_back,
}

-- The statement keeps the session's database: if it succeeds, and for a statement of the server
-- also if it fails.
abbrev pub Stays : {S : Type 0} → SqlTx S → (S → Bytes) → Call → Type 0
Stays d db_of c =
    (s : _)
    → ((d.exec_context c.sql s).error ≡ none) ⊎ (c.scope ≡ [])
    → db_of (d.exec_context c.sql s).session ≡ db_of s

-- The statement ran in its database, or at home if it is one of the server.
abbrev pub IsLocated : {S : Type 0} → (S → Bytes) → Bytes → Sent S → Type 0
IsLocated db_of home x =
    (x.scope ≡ [] → db_of x.session ≡ home) × (x.scope ≢ [] → db_of x.session ≡ x.scope)

str_eq-nil : (s : Bytes) → s ≢ [] → str_eq s [] ≡ false
unfolding str_eq
str_eq-nil [] n = absurd (n refl)
str_eq-nil (c ∷ s) n = refl

module _ {S : Type 0} (d : SqlTx S) (server : Bytes) (db_of : S → Bytes) (law : IsLawful d db_of)
    (home : Bytes) (home_ne : home ≢ []) where
  -- What the transaction knows of its session is so.
  abbrev Knows : ServerTx → S → Type 0
  Knows t s = (t.home ≡ home) × (t.current ≢ [] → db_of s ≡ t.current)

  abbrev IsGood : TxState S → Type 0
  IsGood st = Knows st.tx st.session × All (IsLocated db_of home) st.sent

  -- A step keeps that, and if it succeeds the session is in `db`.
  abbrev Enters : Bytes → Step S → Type 0
  Enters db r = IsGood r.state × (r.error ≡ none → db_of r.state.session ≡ db)

  switch_to_ok :
      (db : Bytes) (st : TxState S)
      → (d.exec_context (use_text db) st.session).error ≡ none
      → switch_to d server db st ≡ record {
        state = record st {
          tx = record st.tx { current = db };
          session = (d.exec_context (use_text db) st.session).session;
        };
        error = none;
      }
  unfolding switch_to
  switch_to_ok db st e = rw (e, switch_to) refl

  switch_to_err :
      (db : Bytes) (st : TxState S) (w : Error)
      → (d.exec_context (use_text db) st.session).error ≡ some w
      → switch_to d server db st ≡ record {
        state = record st {
          tx = record st.tx { current = [] };
          session = (d.exec_context (use_text db) st.session).session;
        };
        error = some w;
      }
  unfolding switch_to
  switch_to_err db st w e = rw (e, switch_to) refl

  switch_to-Enters :
      (db : Bytes) (st : TxState S) → IsGood st → Enters db (switch_to d server db st)
  switch_to-Enters db st g = elim (Option-cases (d.exec_context (use_text db) st.session).error) [
    | inl e ↦
        subst (λ r. Enters db r) (sym (switch_to_ok db st e))
          (
            ((g.0.0, λ _. law.use_switches db st.session e), g.1),
            λ _. law.use_switches db st.session e,
          )
    | inr (w, e) ↦
        subst (λ r. Enters db r) (sym (switch_to_err db st w e))
          (((g.0.0, λ n. absurd (n refl)), g.1), λ q. absurd (cc (q)))
  ]

  in_database_sound :
      (db : Bytes) (t : ServerTx) (s : S) → Knows t s → in_database db t ≡ true → db_of s ≡ db
  unfolding in_database
  in_database_sound db t s k h =
      let e : t.current ≡ db = str_eq_sound t.current db (and_right _ _ h) in
      let ne : str_eq t.current [] ≡ false = ground (arith, h) in
      k.1 (str_eq_ne t.current [] ne) ∙ e

  enter-Enters : (db : Bytes) (st : TxState S) → IsGood st → Enters db (enter d server db st)
  enter-Enters db st g = elim (Bool-cases (in_database db st.tx)) [
    | inl e ↦
        let stay : enter d server db st ≡ record { state = st; error = none } =
          unfold enter in rw e refl in
        subst (λ r. Enters db r) (sym stay) (g, λ _. in_database_sound db st.tx st.session g.0 e)
    | inr e ↦
        let go : enter d server db st ≡ switch_to d server db st = unfold enter in rw e refl in
        subst (λ r. Enters db r) (sym go) (switch_to-Enters db st g)
  ]

  -- The home of a transaction is no empty name, so a call of the server is sent from there.
  server_conn_lem :
      (st : TxState S) → st.tx.home ≡ home → server_conn d server st ≡ enter d server home st
  unfolding server_conn enter
  server_conn_lem st h =
      let some_home : str_eq st.tx.home [] ≡ false = rw h (str_eq-nil home home_ne) in
      elim (Bool-cases (in_database home st.tx)) [
        | inl e ↦ ground (arith, e, h, some_home)
        | inr e ↦ ground (arith, e, h, some_home)
      ]

  server_conn-Enters : (st : TxState S) → IsGood st → Enters home (server_conn d server st)
  server_conn-Enters st g =
      subst (λ r. Enters home r) (sym (server_conn_lem st g.0.0)) (enter-Enters home st g)

  hold-Knows :
      (o : Option ℕ) (e : ScriptEntry) (t : ServerTx) (s : S) → Knows t s → Knows (hold o e t) s
  unfolding hold
  hold-Knows none e t s k = k
  hold-Knows (some fn) e t s k = k

  fail-Knows : (o : Option Error) (t : ServerTx) (s : S) → Knows t s → Knows (fail o t) s
  unfolding fail
  fail-Knows none t s k = k
  fail-Knows (some e) t s k = k

  -- A statement that was sent and keeps the session's database.
  send-Good :
      (c : Call) (st : TxState S)
      → Stays d db_of c
      → IsGood st
      → IsLocated db_of home (record { scope = c.scope; sql = c.sql; session = st.session })
      → ((d.exec_context c.sql st.session).error ≡ none) ⊎ (c.scope ≡ [])
      → IsGood (send d server c.scope c.sql st).state
  unfolding send
  send-Good c st k g l e = ((g.0.0, λ n. k st.session e ∙ g.0.1 n), (l, g.1))

  observe-Good : (c : Call) (st : TxState S) → IsGood st → IsGood (observe d server c st)
  unfolding observe
  observe-Good c st g = (
    hold-Knows c.observer (record { server = server; database = c.scope; sql = c.shown }) st.tx
        st.session g.0,
    g.1,
  )

  server_exec-Good :
      (c : Call) (st : TxState S)
      → c.scope ≡ []
      → Stays d db_of c
      → IsGood st
      → IsGood (server_exec d server c st).state
  server_exec-Good c st q k g =
      let conn = server_conn d server st in
      let entered = server_conn-Enters st g in
      let sent : conn.error ≡ none → IsGood (send d server c.scope c.sql conn.state).state =
        λ e. send-Good c conn.state k entered.0 ((λ _. entered.1 e), (λ n. absurd (n q))) (inr q) in
      elim (Option-cases conn.error) [
        | inr (w, e) ↦
            subst (λ r. IsGood r.state) (sym (server_exec_refused d server c st w e)) entered.0
        | inl e ↦ elim (Option-cases (d.exec_context c.sql conn.state.session).error) [
          | inr (w, f) ↦
              subst (λ r. IsGood r.state) (sym (server_exec_failed d server c st w e f)) (sent e)
          | inl f ↦
              subst (λ r. IsGood r.state) (sym (server_exec_sent d server c st e f))
                (observe-Good c (send d server c.scope c.sql conn.state).state (sent e))
        ]
      ]

  lost-Good :
      (c : Call) (st : TxState S)
      → IsGood st
      → IsLocated db_of home (record { scope = c.scope; sql = c.sql; session = st.session })
      → (let r = (send d server c.scope c.sql st).state in IsGood (record r { tx = lost r.tx }))
  unfolding send lost at
  lost-Good c st g l = ((g.0.0, λ n. absurd (n refl)), (l, g.1))

  database_exec-Good :
      (c : Call) (st : TxState S)
      → c.scope ≢ []
      → Stays d db_of c
      → IsGood st
      → IsGood (database_exec d server c st).state
  database_exec-Good c st n k g =
      let conn = enter d server c.scope st in
      let entered = enter-Enters c.scope st g in
      let there : conn.error ≡ none
          → IsLocated db_of home
              (record { scope = c.scope; sql = c.sql; session = conn.state.session }) =
        λ e. ((λ q. absurd (n q)), (λ _. entered.1 e)) in
      elim (Option-cases conn.error) [
        | inr (w, e) ↦
            subst (λ r. IsGood r.state) (sym (database_exec_refused d server c st w e)) entered.0
        | inl e ↦ elim (Option-cases (d.exec_context c.sql conn.state.session).error) [
          | inr (w, f) ↦
              subst (λ r. IsGood r.state) (sym (database_exec_failed d server c st w e f))
                (lost-Good c conn.state entered.0 (there e))
          | inl f ↦
              subst (λ r. IsGood r.state) (sym (database_exec_sent d server c st e f))
                (observe-Good c (send d server c.scope c.sql conn.state).state
                  (send-Good c conn.state k entered.0 (there e) (inl f)))
        ]
      ]

  exec-Good :
      (c : Call) (st : TxState S) → Stays d db_of c → IsGood st → IsGood (exec d server c st).state
  exec-Good c st k g = elim (Bool-cases (str_eq c.scope [])) [
    | inl e ↦
        let here : exec d server c st ≡ server_exec d server c st = unfold exec in rw e refl in
        subst (λ r. IsGood r.state) (sym here)
          (server_exec-Good c st (str_eq_sound c.scope [] e) k g)
    | inr e ↦
        let here : exec d server c st ≡ database_exec d server c st = unfold exec in rw e refl in
        subst (λ r. IsGood r.state) (sym here)
          (database_exec-Good c st (str_eq_ne c.scope [] e) k g)
  ]

  run_call-Good :
      (c : Call) (st : TxState S)
      → Stays d db_of c
      → IsGood st
      → IsGood (run_call d server c st).state
  unfolding run_call
  run_call-Good c st k g =
      let r = exec d server c st in
      let good = exec-Good c st k g in
      elim (Bool-cases c.atomic) [
        | inl e ↦
            let noted : run_call d server c st ≡ record {
              state = record r.state { tx = fail r.error r.state.tx };
              error = r.error;
            } =
              rw (e, run_call) refl in
            subst (λ r. IsGood r.state) (sym noted)
              (fail-Knows r.error r.state.tx r.state.session good.0, good.1)
        | inr e ↦
            let plain : run_call d server c st ≡ r = rw (e, run_call) refl in
            subst (λ r. IsGood r.state) (sym plain) good
      ]

  run_calls-Good :
      (cs : List Call) (st : TxState S)
      → All (Stays d db_of) cs
      → IsGood st
      → IsGood (run_calls d server cs st)
  unfolding run_calls
  run_calls-Good [] st k g = g
  run_calls-Good (c ∷ cs) st k g =
      run_calls-Good cs (run_call d server c st).state k.1 (run_call-Good c st k.0 g)

  begin-Good : (s : S) → db_of s ≡ home → IsGood (begin d server home s)
  unfolding begin
  begin-Good s e = ((refl, λ _. e), tt)

  -- Going home and ending the transaction send nothing more.
  go_home-sent : (st : TxState S) → (go_home d server st).sent ≡ st.sent
  go_home-sent st = elim (Bool-cases (str_eq st.tx.home [] || in_database st.tx.home st.tx)) [
    | inl e ↦ unfold go_home in rw (e, go_home) refl
    | inr e ↦ elim (Option-cases (d.exec_context (use_text st.tx.home) st.session).error) [
      | inl f ↦ unfold go_home in rw (e, f, go_home) refl
      | inr (w, f) ↦ unfold go_home in rw (e, f, go_home) refl
    ]
  ]

  commit_tx-sent : (st : TxState S) → (commit_tx d server st).state.sent ≡ st.sent
  unfolding commit_tx roll_back
  commit_tx-sent st = elim (Option-cases (d.commit (go_home d server st).session)) [
    | inl f ↦ rw (f, commit_tx) (go_home-sent st)
    | inr (w, f) ↦ rw (f, commit_tx) (go_home-sent (go_home d server st) ∙ go_home-sent st)
  ]

  refuse_or_commit-sent :
      (o : Option Error) (st : TxState S) → (refuse_or_commit d server o st).state.sent ≡ st.sent
  unfolding refuse_or_commit roll_back
  refuse_or_commit-sent (some e) st = go_home-sent st
  refuse_or_commit-sent none st = commit_tx-sent st

  finish-sent : (o : Option Error) (st : TxState S) → (finish d server o st).state.sent ≡ st.sent
  unfolding finish roll_back
  finish-sent (some e) st = go_home-sent st
  finish-sent none st = refuse_or_commit-sent st.tx.failed st

-- Each statement that the calls of a transaction send runs in the database that its method is of,
-- and each of the server in the database that the transaction began in, in whatever order the calls
-- come and whichever of them fail, if no statement moves the session itself. A failed statement of
-- a database may move it.
pub in_transaction-IsLocated :
    {S : Type 0} (d : SqlTx S) (server : Bytes) (db_of : S → Bytes)
    → IsLawful d db_of
    → (calls : List Call) → All (Stays d db_of) calls
    → (fn_error : Option Error) (s : S) {o : Outcome d server}
    → in_transaction d server calls fn_error s ≡ ok o
    → All (IsLocated db_of (db_of s)) o.state.sent
unfolding in_transaction
in_transaction-IsLocated d server db_of law calls k fn_error s {o} h =
    elim (Result-cases (d.db_name s)) [
      | inl (w, e) ↦ let bad : err w ≡ ok o = rw (e, in_transaction) at h in absurd (cc (bad))
      | inr (home, e) ↦
          let ended = run_calls d server calls (begin d server home s) in
          let found : ok (finish d server fn_error ended) ≡ ok o = rw (e, in_transaction) at h in
          let whole : finish d server fn_error ended ≡ o = cc (found) in
          let at_home = law.db_name_lem s e in
          let good =
            run_calls-Good d server db_of law home at_home.1 calls (begin d server home s) k
              (begin-Good d server db_of law home at_home.1 s at_home.0) in
          let sent : All (IsLocated db_of (db_of s)) ended.sent =
            subst (λ x. All (IsLocated db_of x) ended.sent) (sym at_home.0) good.1 in
          subst (λ x. All (IsLocated db_of (db_of s)) x.state.sent) whole
            (subst (λ xs. All (IsLocated db_of (db_of s)) xs)
              (sym (finish-sent d server db_of law home at_home.1 fn_error ended)) sent)
    ]
