-- ===== src/Transaction/Heard.antt =====
-- What a transaction notes of its calls: the first failed write, and the reports of those that ran.
use gosmo.Base.{
  ℕ, not, ◌&&◌, ◌≡◌, refl, sym, ap, ◌∙◌, ◌||◌, Option, none, some, List, [], ◌∷◌, ◌++◌, append-nil,
  append_assoc, Bytes, if◌then◌else◌, Bool-cases, Option-cases, inl, inr, str_eq, subst,
}
use gosmo.Script.{ScriptEntry}
use gosmo.Transaction.Driver.{Error, SqlTx, use_text}
use gosmo.Transaction.Calls.{
  server_exec_refused, server_exec_failed, server_exec_sent, database_exec_refused,
  database_exec_failed, database_exec_sent,
}
use gosmo.Transaction.{
  HeldReport, ServerTx, TxState, Step, Call, in_database, at, lost, first_of, fail, hold, switch_to,
  enter, server_conn, go_home, send, observe, server_exec, database_exec, exec, run_call, run_calls,
}

-- The first of two errors, if there is one.
abbrev pub then_first : Option Error → Option Error → Option Error
then_first none later = later
then_first (some w) later = some w

-- The first error among those of the atomic calls.
pub first_failure : List Call → List (Option Error) → Option Error
first_failure [] es = none
first_failure (c ∷ cs) [] = none
first_failure (c ∷ cs) (e ∷ es) = then_first (if c.atomic then e else none) (first_failure cs es)

then_first-none : (o : Option Error) → then_first o none ≡ o
then_first-none none = refl
then_first-none (some e) = refl

then_first_assoc :
    (a b c : Option Error) → then_first (then_first a b) c ≡ then_first a (then_first b c)
then_first_assoc none b c = refl
then_first_assoc (some e) b c = refl

fail-failed :
    (o : Option Error) (t : ServerTx)
    → ((fail o t).failed ≡ then_first t.failed o) × ((fail o t).pending ≡ t.pending)
unfolding fail
fail-failed none t = (sym (then_first-none t.failed), refl)
fail-failed (some e) t = (first_of_lem t.failed, refl)
  where
    first_of_lem : (o : Option Error) → first_of o e ≡ then_first o (some e)
    first_of_lem none = unfold first_of in refl
    first_of_lem (some w) = unfold first_of in refl

-- The report of an entry to an observer, if there is one.
pub reported : Option ℕ → ScriptEntry → List HeldReport
reported none e = []
reported (some fn) e = record { fn = fn; e = e } ∷ []

-- The report of one call: its statement, if it ran.
pub heard_one : Bytes → Call → Option Error → List HeldReport
heard_one server c (some e) = []
heard_one server c none =
    reported c.observer (record { server = server; database = c.scope; sql = c.shown })

-- The reports of the calls that succeeded, in their order.
pub heard : Bytes → List Call → List (Option Error) → List HeldReport
heard server [] es = []
heard server (c ∷ cs) [] = []
heard server (c ∷ cs) (e ∷ es) = heard_one server c e ++ heard server cs es

module _ {S : Type 0} (d : SqlTx S) (server : Bytes) where
  -- The errors that the calls return to fn.
  pub errors_of : List Call → TxState S → List (Option Error)
  errors_of [] st = []
  errors_of (c ∷ cs) st = let r = run_call d server c st in r.error ∷ errors_of cs r.state

  -- Neither the failure nor the reports change.
  abbrev pub IsQuiet : ServerTx → ServerTx → Type 0
  IsQuiet t u = (u.failed ≡ t.failed) × (u.pending ≡ t.pending)

  abbrev IsNoted : Call → TxState S → Step S → Type 0
  IsNoted c st r =
      (r.state.tx.failed ≡ st.tx.failed)
      × (r.state.tx.pending ≡ st.tx.pending ++ heard_one server c r.error)

  switch_to-Quiet :
      (db : Bytes) (st : TxState S) → IsQuiet st.tx (switch_to d server db st).state.tx
  switch_to-Quiet db st = elim (Option-cases (d.exec_context (use_text db) st.session).error) [
    | inl e ↦ unfold switch_to at in rw (e, switch_to) (refl, refl)
    | inr (w, e) ↦ unfold switch_to lost at in rw (e, switch_to) (refl, refl)
  ]

  enter-Quiet : (db : Bytes) (st : TxState S) → IsQuiet st.tx (enter d server db st).state.tx
  enter-Quiet db st = elim (Bool-cases (in_database db st.tx)) [
    | inl e ↦ unfold enter in rw (e, enter) (refl, refl)
    | inr e ↦ unfold enter in rw (e, enter) (switch_to-Quiet db st)
  ]

  hold-reported :
      (o : Option ℕ) (e : ScriptEntry) (t : ServerTx)
      → ((hold o e t).failed ≡ t.failed) × ((hold o e t).pending ≡ t.pending ++ reported o e)
  unfolding hold reported
  hold-reported none e t = (refl, sym (append-nil t.pending))
  hold-reported (some fn) e t = (refl, refl)

  observe-Noted :
      (c : Call) (t u : TxState S)
      → IsQuiet t.tx u.tx
      → IsNoted c t (record { state = observe d server c u; error = none })
  unfolding observe heard_one
  observe-Noted c t u q =
      let entry : ScriptEntry = record { server = server; database = c.scope; sql = c.shown } in
      let h = hold-reported c.observer entry u.tx in
      (h.0 ∙ q.0, h.1 ∙ ap (λ xs. xs ++ reported c.observer entry) q.1)

  -- A call that failed reports nothing.
  failed-Noted :
      (c : Call) (t u : TxState S) (w : Error)
      → IsQuiet t.tx u.tx
      → IsNoted c t (record { state = u; error = some w })
  unfolding heard_one
  failed-Noted c t u w q = (q.0, q.1 ∙ sym (append-nil t.tx.pending))

  refused-Noted :
      (c : Call) (t : TxState S) (r : Step S) (w : Error)
      → r.error ≡ some w
      → IsQuiet t.tx r.state.tx
      → IsNoted c t r
  unfolding heard_one
  refused-Noted c t r w e q = rw e (q.0, q.1 ∙ sym (append-nil t.tx.pending))

  send-Quiet :
      (c : Call) (t u : TxState S)
      → IsQuiet t.tx u.tx
      → IsQuiet t.tx (send d server c.scope c.sql u).state.tx
  unfolding send
  send-Quiet c t u q = q

  server_conn-Quiet : (st : TxState S) → IsQuiet st.tx (server_conn d server st).state.tx
  server_conn-Quiet st =
      elim (Bool-cases (not (str_eq st.tx.home []) && not (in_database st.tx.home st.tx))) [
        | inl e ↦ unfold server_conn in rw (e, server_conn) (switch_to-Quiet st.tx.home st)
        | inr e ↦ unfold server_conn in rw (e, server_conn) (refl, refl)
      ]

  server_exec-Noted : (c : Call) (st : TxState S) → IsNoted c st (server_exec d server c st)
  server_exec-Noted c st =
      let conn = server_conn d server st in
      let quiet = server_conn-Quiet st in
      elim (Option-cases conn.error) [
        | inr (w, e) ↦
            subst (λ r. IsNoted c st r) (sym (server_exec_refused d server c st w e))
              (refused-Noted c st conn w e quiet)
        | inl e ↦ elim (Option-cases (d.exec_context c.sql conn.state.session).error) [
          | inr (w, f) ↦
              subst (λ r. IsNoted c st r) (sym (server_exec_failed d server c st w e f))
                (failed-Noted c st (send d server c.scope c.sql conn.state).state w
                  (send-Quiet c st conn.state quiet))
          | inl f ↦
              subst (λ r. IsNoted c st r) (sym (server_exec_sent d server c st e f))
                (observe-Noted c st (send d server c.scope c.sql conn.state).state
                  (send-Quiet c st conn.state quiet))
        ]
      ]

  lost-Quiet :
      (c : Call) (t u : TxState S)
      → IsQuiet t.tx u.tx
      → IsQuiet t.tx (lost (send d server c.scope c.sql u).state.tx)
  unfolding send lost at
  lost-Quiet c t u q = q

  database_exec-Noted : (c : Call) (st : TxState S) → IsNoted c st (database_exec d server c st)
  database_exec-Noted c st =
      let conn = enter d server c.scope st in
      let quiet = enter-Quiet c.scope st in
      elim (Option-cases conn.error) [
        | inr (w, e) ↦
            subst (λ r. IsNoted c st r) (sym (database_exec_refused d server c st w e))
              (refused-Noted c st conn w e quiet)
        | inl e ↦ elim (Option-cases (d.exec_context c.sql conn.state.session).error) [
          | inr (w, f) ↦
              let sent = (send d server c.scope c.sql conn.state).state in
              subst (λ r. IsNoted c st r) (sym (database_exec_failed d server c st w e f))
                (failed-Noted c st (record sent { tx = lost sent.tx }) w
                  (lost-Quiet c st conn.state quiet))
          | inl f ↦
              subst (λ r. IsNoted c st r) (sym (database_exec_sent d server c st e f))
                (observe-Noted c st (send d server c.scope c.sql conn.state).state
                  (send-Quiet c st conn.state quiet))
        ]
      ]

  exec-Noted : (c : Call) (st : TxState S) → IsNoted c st (exec d server c st)
  exec-Noted c st = elim (Bool-cases (str_eq c.scope [])) [
    | inl e ↦
        let here : exec d server c st ≡ server_exec d server c st = unfold exec in rw e refl in
        subst (λ r. IsNoted c st r) (sym here) (server_exec-Noted c st)
    | inr e ↦
        let here : exec d server c st ≡ database_exec d server c st = unfold exec in rw e refl in
        subst (λ r. IsNoted c st r) (sym here) (database_exec-Noted c st)
  ]

  run_call-Noted :
      (c : Call) (st : TxState S)
      → (let r = run_call d server c st in
          (r.state.tx.failed ≡ then_first st.tx.failed (if c.atomic then r.error else none))
          × (r.state.tx.pending ≡ st.tx.pending ++ heard_one server c r.error))
  unfolding heard_one
  run_call-Noted c st =
      let r = exec d server c st in
      let n = exec-Noted c st in
      let f = fail-failed r.error r.state.tx in
      elim (Bool-cases c.atomic) [
        | inl e ↦
            unfold run_call in
            rw (e, run_call) (f.0 ∙ ap (λ o. then_first o r.error) n.0, f.1 ∙ n.1)
        | inr e ↦
            unfold run_call in rw (e, run_call) (n.0 ∙ sym (then_first-none st.tx.failed), n.1)
      ]

  pub run_calls-Noted :
      (cs : List Call) (st : TxState S)
      → ((run_calls d server cs st).tx.failed
          ≡ then_first st.tx.failed (first_failure cs (errors_of cs st)))
        × ((run_calls d server cs st).tx.pending
            ≡ st.tx.pending ++ heard server cs (errors_of cs st))
  unfolding run_calls errors_of first_failure heard
  run_calls-Noted [] st = (sym (then_first-none st.tx.failed), sym (append-nil st.tx.pending))
  run_calls-Noted (c ∷ cs) st =
      let r = run_call d server c st in
      let n = run_call-Noted c st in
      let rest = run_calls-Noted cs r.state in
      let later = first_failure cs (errors_of cs r.state) in
      (
        rest.0
            ∙ ap (λ o. then_first o later) n.0
            ∙ then_first_assoc st.tx.failed (if c.atomic then r.error else none) later,
        rest.1
            ∙ ap (λ xs. xs ++ heard server cs (errors_of cs r.state)) n.1
            ∙ append_assoc st.tx.pending (heard_one server c r.error)
                (heard server cs (errors_of cs r.state)),
      )

  pub go_home-Quiet : (st : TxState S) → IsQuiet st.tx (go_home d server st).tx
  go_home-Quiet st = elim (Bool-cases (str_eq st.tx.home [] || in_database st.tx.home st.tx)) [
    | inl e ↦ unfold go_home in rw (e, go_home) (refl, refl)
    | inr e ↦ elim (Option-cases (d.exec_context (use_text st.tx.home) st.session).error) [
      | inl f ↦ unfold go_home at in rw (e, f, go_home) (refl, refl)
      | inr (w, f) ↦ unfold go_home in rw (e, f, go_home) (refl, refl)
    ]
  ]
