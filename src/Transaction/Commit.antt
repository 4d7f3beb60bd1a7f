-- ===== src/Transaction/Commit.antt =====
-- What InTransaction commits, and what its observers hear.
use gosmo.Base.{
  ◌≡◌, ◌≢◌, refl, sym, ap, true, false, Option, none, some, List, [], ok, Bytes, Option-cases, inl,
  inr, subst,
}
use gosmo.Transaction.Driver.{Error, SqlTx}
use gosmo.Transaction.{
  HeldReport, TxState, Call, go_home, run_calls, commit_tx, refuse_or_commit, finish, begin,
  Outcome, in_transaction, roll_back,
}
use gosmo.Transaction.Heard.{first_failure, heard, errors_of, run_calls-Noted, go_home-Quiet}

module _ {S : Type 0} (d : SqlTx S) (server : Bytes) where
  -- What the end of a transaction is for fn's error, its state behind fn and the first failed write.
  abbrev pub IsSettled :
      Option Error → TxState S → Option Error → List HeldReport → Outcome d server → Type 0
  IsSettled fn_error ended failure reports o =
      (o.committed ≡ true
        → (d.commit o.state.session ≡ none)
          × (o.error ≡ none)
          × (fn_error ≡ none)
          × (failure ≡ none)
          × (o.observed ≡ reports))
      × (o.committed ≡ false → (o.error ≢ none) × (o.observed ≡ []))
      × (fn_error ≢ none → o.error ≡ fn_error)
      × (fn_error ≡ none → failure ≢ none → o.error ≡ failure)
      × (fn_error ≡ none → failure ≡ none → d.commit (go_home d server ended).session ≡ o.error)

  roll_back-Settled :
      (fn_error failure : Option Error) (ended : TxState S) (reports : List HeldReport)
      (st : TxState S) (w : Error)
      → (fn_error ≢ none → fn_error ≡ some w)
      → (fn_error ≡ none → failure ≢ none → failure ≡ some w)
      → (fn_error ≡ none → failure ≡ none → d.commit (go_home d server ended).session ≡ some w)
      → IsSettled fn_error ended failure reports (roll_back d server w st)
  unfolding roll_back
  roll_back-Settled fn_error failure ended reports st w a b c =
      (λ e. absurd (cc (e)), λ e. (λ q. cc, refl), λ n. sym (a n), λ n m. sym (b n m), c)

  commit_tx-Settled :
      (st : TxState S)
      → st.tx.failed ≡ none
      → IsSettled none st st.tx.failed st.tx.pending (commit_tx d server st)
  commit_tx-Settled st e =
      let h = go_home d server st in
      elim (Option-cases (d.commit h.session)) [
        | inr (w, f) ↦
            let back : commit_tx d server st ≡ roll_back d server w h =
              unfold commit_tx in rw (f, commit_tx) refl in
            subst (λ o. IsSettled none st st.tx.failed st.tx.pending o) (sym back)
              (roll_back-Settled none st.tx.failed st st.tx.pending h w (λ n. absurd (n refl))
                (λ _ n. absurd (n e)) (λ _ _. f))
        | inl f ↦
            let done : commit_tx d server st
                ≡ record { error = none; committed = true; observed = h.tx.pending; state = h } =
              unfold commit_tx in rw (f, commit_tx) refl in
            subst (λ o. IsSettled none st st.tx.failed st.tx.pending o) (sym done)
              (
                λ _. (f, refl, refl, e, (go_home-Quiet d server st).1),
                λ q. absurd (cc (q)),
                λ n. absurd (n refl),
                λ _ n. absurd (n e),
                λ _ _. f,
              )
      ]

  finish-Settled :
      (fn_error : Option Error) (st : TxState S)
      → IsSettled fn_error st st.tx.failed st.tx.pending (finish d server fn_error st)
  finish-Settled (some e) st =
      unfold finish in
      roll_back-Settled (some e) st.tx.failed st st.tx.pending st e (λ _. refl)
        (λ q. absurd (cc (q))) (λ q. absurd (cc (q)))
  finish-Settled none st = elim (Option-cases st.tx.failed) [
    | inr (w, e) ↦
        let back : finish d server none st ≡ roll_back d server w st =
          unfold finish refuse_or_commit in ap (λ o. refuse_or_commit d server o st) e in
        subst (λ o. IsSettled none st st.tx.failed st.tx.pending o) (sym back)
          (roll_back-Settled none st.tx.failed st st.tx.pending st w (λ n. absurd (n refl))
            (λ _ _. e) (λ _ m. absurd (cc (e, m))))
    | inl e ↦
        let on : finish d server none st ≡ commit_tx d server st =
          unfold finish refuse_or_commit in ap (λ o. refuse_or_commit d server o st) e in
        subst (λ o. IsSettled none st st.tx.failed st.tx.pending o) (sym on)
          (commit_tx-Settled st e)
  ]

-- InTransaction commits only if fn returned no error, no atomic write failed and the driver's COMMIT
-- succeeded on the session that it hands back, and observers then hear of the writes that succeeded,
-- in their order. If it does not commit it returns an error, and observers hear nothing: fn's error
-- if there is one, else that of the first atomic write that failed, if one did, and else that of
-- COMMIT; so without an error of fn and of the atomic writes the error is the one of COMMIT, sent on
-- the session that has gone home, or there is none.
pub in_transaction-IsSettled :
    {S : Type 0} (d : SqlTx S) (server : Bytes) (calls : List Call) (fn_error : Option Error)
    (s : S) {home : Bytes} {o : Outcome d server}
    → d.db_name s ≡ ok home
    → in_transaction d server calls fn_error s ≡ ok o
    → (let start = begin d server home s in
        let errors = errors_of d server calls start in
        IsSettled d server fn_error
          (run_calls d server calls start)
          (first_failure calls errors)
          (heard server calls errors)
          o)
unfolding in_transaction
in_transaction-IsSettled d server calls fn_error s {home} {o} e h =
    let start = begin d server home s in
    let ended = run_calls d server calls start in
    let errors = errors_of d server calls start in
    let found : ok (finish d server fn_error ended) ≡ ok o = rw (e, in_transaction) at h in
    let whole : finish d server fn_error ended ≡ o = cc (found) in
    let n = run_calls-Noted d server calls start in
    subst
      (λ x.
        IsSettled d server fn_error ended (first_failure calls errors) (heard server calls errors)
          x)
      whole
      (subst
        (λ x.
          IsSettled d server fn_error ended x (heard server calls errors)
            (finish d server fn_error ended))
        n.0
        (subst
          (λ x.
            IsSettled d server fn_error ended ended.tx.failed x (finish d server fn_error ended))
          n.1 (finish-Settled d server fn_error ended)))
