-- ===== src/Script/Replay.antt =====
-- Running the pieces of a script: every statement runs on the instance and in the database that its
-- entry names.
use gosmo.Base.{
  ◌≡◌, ◌≢◌, refl, sym, ◌∙◌, Bool, true, false, Option, none, some, List, [], ◌∷◌, ◌++◌, Bytes,
  codes, ◌⊎◌, inl, inr, if◌then◌else◌, str_eq, str_eq_sound, has_prefix, Bool-cases, All, not,
  contains_func, or_false_left, or_false_right, subst,
}
use gosmo.Script.{
  ScriptEntry, ScriptCollector, from_master, Chunk, line_break, on_server, use_database, batch,
  opens_run, switch_database, write_from, chunks, spans_servers,
}

-- A statement that ran, with the instance and the database it ran in; [] is the session's default
-- database.
pub record Ran : Type 0 where
  pub server : Bytes
  pub database : Bytes
  pub sql : Bytes

-- A batch that begins with USE [master] runs there and leaves the session there.
pub entered : Bytes → Bytes → Bytes
entered session sql = if has_prefix (from_master []) sql then codes "master" else session

-- The script, run from a session on `server` in the database `session`: the line that names an
-- instance is followed by a new session there, in its default database.
pub replay : Bytes → Bytes → List Chunk → List Ran
replay server session [] = []
replay server session (line_break ∷ cs) = replay server session cs
replay server session (on_server name ∷ cs) = replay name [] cs
replay server session (use_database db ∷ cs) = replay server db cs
replay server session (batch sql ∷ cs) =
    record { server = server; database = entered session sql; sql = sql }
    ∷ replay server (entered session sql) cs

-- A statement ran on its instance; one of a database ran in that database, one of a server in none
-- that is not master.
abbrev pub RanAs : ScriptEntry → Ran → Type 0
RanAs e r =
    (r.sql ≡ e.sql)
    × (r.server ≡ e.server)
    × (e.database ≢ [] → r.database ≡ e.database)
    × (e.database ≡ [] → (r.database ≡ []) ⊎ (r.database ≡ codes "master"))

abbrev pub AllRanAs : List ScriptEntry → List Ran → Type 0
AllRanAs [] [] = Unit
AllRanAs [] (r ∷ rs) = ⊥
AllRanAs (e ∷ es) [] = ⊥
AllRanAs (e ∷ es) (r ∷ rs) = RanAs e r × AllRanAs es rs

-- A statement of a database does not itself begin by leaving it.
abbrev pub StaysThere : ScriptEntry → Type 0
StaysThere e = e.database ≢ [] → has_prefix (from_master []) e.sql ≡ false

-- What `cur` says of the session.
abbrev Knows : Bytes → Bytes → Type 0
Knows cur session =
    (cur ≢ [] → session ≡ cur) × (cur ≡ [] → (session ≡ []) ⊎ (session ≡ codes "master"))

-- The session behind the USE of the switch.
moved : Bytes → Option Bytes → Bytes
moved session none = session
moved session (some db) = db

abbrev entry : Bytes → Bytes → Bytes → ScriptEntry
entry server db sql = record { server = server; database = db; sql = sql }

-- A session that does not leave its database.
entered_same :
    (session sql : Bytes) → has_prefix (from_master []) sql ≡ false → entered session sql ≡ session
unfolding entered
entered_same session sql h = rw h

entered_master :
    (session sql : Bytes)
    → (session ≡ []) ⊎ (session ≡ codes "master")
    → (entered session sql ≡ []) ⊎ (entered session sql ≡ codes "master")
unfolding entered
entered_master session sql h = elim (Bool-cases (has_prefix (from_master []) sql)) [
  | inl e ↦ rw e (inr refl)
  | inr e ↦ rw e h
]

-- A statement of a server behind one of a database.
entered_switch :
    (session sql : Bytes)
    → entered
        (moved session (if has_prefix (from_master []) sql then none else some (codes "master")))
        sql
      ≡ codes "master"
unfolding entered moved
entered_switch session sql = elim (Bool-cases (has_prefix (from_master []) sql)) [
  | inl e ↦ rw e refl
  | inr e ↦ rw e refl
]

abbrev After : Bytes → Bytes → ScriptEntry → Type 0
After cur session e =
    let s = switch_database cur e in
    let now = entered (moved session s.written) e.sql in
    RanAs e (record { server = e.server; database = now; sql = e.sql }) × Knows s.cur now

switched :
    (cur session server db sql : Bytes)
    → Knows cur session
    → StaysThere (entry server db sql)
    → After cur session (entry server db sql)
unfolding switch_database moved str_eq
switched [] session server [] sql k st =
    let m = entered_master session sql (k.1 refl) in
    ((refl, refl, λ n. absurd (n refl), λ _. m), (λ n. absurd (n refl), λ _. m))
switched (c ∷ cur) session server [] sql k st =
    let m = entered_switch session sql in
    ((refl, refl, λ n. absurd (n refl), λ _. inr m), (λ n. absurd (n refl), λ _. inr m))
switched [] session server (d ∷ db) sql k st =
    let same = entered_same (d ∷ db) sql (st (λ q. cc)) in
    ((refl, refl, λ _. same, λ q. cc), (λ _. same, λ q. cc))
switched (c ∷ cur) session server (d ∷ db) sql k st =
    elim (Bool-cases (str_eq (d ∷ db) (c ∷ cur))) [
      | inl e ↦
          let now : entered session sql ≡ c ∷ cur =
            rw (entered_same session sql (st (λ q. cc))) (k.0 (λ q. cc)) in
          let is : d ∷ db ≡ c ∷ cur = str_eq_sound (d ∷ db) (c ∷ cur) e in
          rw e ((refl, refl, λ _. now ∙ sym is, λ q. cc), (λ _. now, λ q. cc))
      | inr e ↦
          let same = entered_same (d ∷ db) sql (st (λ q. cc)) in
          rw e ((refl, refl, λ _. same, λ q. cc), (λ _. same, λ q. cc))
    ]

Knows-start : Knows [] []
Knows-start = (λ n. absurd (n refl), λ _. inl refl)

-- The chunks of one entry, run from any session.
replay_entry :
    (server session : Bytes) (use_first : Option Bytes) (sql : Bytes) (rest : List Chunk)
    → replay server session
        (elim use_first [ none ↦ [] | some db ↦ use_database db ∷ [] ] ++ (batch sql ∷ rest))
      ≡ record { server = server; database = entered (moved session use_first) sql; sql = sql }
        ∷ replay server (entered (moved session use_first) sql) rest
unfolding replay moved
replay_entry server session none sql rest = refl
replay_entry server session (some db) sql rest = refl

-- What the loop writes for one entry, behind the line break.
abbrev entry_chunks : Bool → Bool → Bytes → ScriptEntry → List ScriptEntry → List Chunk
entry_chunks multi opens cur e es =
    let s = switch_database (if opens then [] else cur) e in
    (if opens then on_server e.server ∷ [] else [])
    ++ (elim s.written [ none ↦ [] | some db ↦ use_database db ∷ [] ]
        ++ (batch e.sql ∷ write_from multi (some e) s.cur es))

-- How the instance of the session agrees with the entries that are left: it is that of all of them
-- where the script names none, and else that of the entry before them.
Serves : Bool → Option ScriptEntry → Bytes → List ScriptEntry → Type 0
Serves false prev server es = All (λ e. e.server ≡ server) es
Serves true none server es = Unit
Serves true (some p) server es = server ≡ p.server

-- Behind what opens an entry the session is on the entry's instance.
Serves-next :
    (multi : Bool) (prev : Option ScriptEntry) (server : Bytes) (e : ScriptEntry)
    (es : List ScriptEntry)
    → Serves multi prev server (e ∷ es)
    → (let next = if opens_run multi prev e then e.server else server in
        (next ≡ e.server) × Serves multi (some e) next es)
unfolding Serves opens_run
Serves-next false none server e es h = (sym h.0, h.1)
Serves-next false (some p) server e es h = (sym h.0, h.1)
Serves-next true none server e es h = (refl, refl)
Serves-next true (some p) server e es h = elim (Bool-cases (str_eq e.server p.server)) [
  | inl q ↦
      let same : server ≡ e.server = h ∙ sym (str_eq_sound e.server p.server q) in rw q (same, same)
  | inr q ↦ rw q (refl, refl)
]

abbrev Continues : Bool → ScriptEntry → Bytes → List ScriptEntry → Type 0
Continues multi e server es =
    (cur session : Bytes)
    → Knows cur session
    → AllRanAs es (replay server session (write_from multi (some e) cur es))

entry-RanAs :
    (multi : Bool) (cur session : Bytes) (e : ScriptEntry) (server : Bytes) (es : List ScriptEntry)
    → server ≡ e.server
    → Knows cur session
    → StaysThere e
    → Continues multi e server es
    → AllRanAs (e ∷ es) (replay server session (entry_chunks multi false cur e es))
entry-RanAs multi cur session e server es on k st ih =
    let s = switch_database cur e in
    let now = entered (moved session s.written) e.sql in
    let (ran, knows) = switched cur session e.server e.database e.sql k st in
    rw (replay_entry server session s.written e.sql (write_from multi (some e) s.cur es))
      ((ran.0, on, ran.2, ran.3), ih s.cur now knows)

opened-RanAs :
    (multi opens : Bool) (cur session : Bytes) (e : ScriptEntry) (server : Bytes)
    (es : List ScriptEntry)
    → (if opens then e.server else server) ≡ e.server
    → Knows cur session
    → StaysThere e
    → Continues multi e (if opens then e.server else server) es
    → AllRanAs (e ∷ es) (replay server session (entry_chunks multi opens cur e es))
opened-RanAs multi false cur session e server es on k st ih =
    entry-RanAs multi cur session e server es on k st ih
opened-RanAs multi true cur session e server es on k st ih =
    unfold replay in entry-RanAs multi [] [] e e.server es on Knows-start st ih

write_from-RanAs :
    (multi : Bool) (prev : Option ScriptEntry) (cur server session : Bytes) (es : List ScriptEntry)
    → Serves multi prev server es
    → Knows cur session
    → All StaysThere es
    → AllRanAs es (replay server session (write_from multi prev cur es))
unfolding write_from replay
write_from-RanAs multi prev cur server session [] on k st = tt
write_from-RanAs multi none cur server session (e ∷ es) on k st =
    let (here, next) = Serves-next multi none server e es on in
    opened-RanAs multi (opens_run multi none e) cur session e server es here k st.0 (λ c s q.
      write_from-RanAs multi (some e) c (if opens_run multi none e then e.server else server) s es
        next q st.1)
write_from-RanAs multi (some p) cur server session (e ∷ es) on k st =
    let (here, next) = Serves-next multi (some p) server e es on in
    opened-RanAs multi (opens_run multi (some p) e) cur session e server es here k st.0 (λ c s q.
      write_from-RanAs multi (some e) c (if opens_run multi (some p) e then e.server else server) s
        es next q st.1)

-- The instance of the entries, if they have only one.
abbrev pub IsOnlyServer : Bytes → List ScriptEntry → Type 0
IsOnlyServer server [] = Unit
IsOnlyServer server (e ∷ es) = All (λ x. x.server ≡ e.server) es → server ≡ e.server

one_server :
    (s : Bytes) (es : List ScriptEntry)
    → contains_func (λ x. not (str_eq x.server s)) es ≡ false
    → All (λ e. e.server ≡ s) es
one_server s [] h = tt
one_server s (e ∷ es) h = elim (Bool-cases (str_eq e.server s)) [
  | inl q ↦ (str_eq_sound e.server s q, one_server s es (or_false_right _ _ h))
  | inr q ↦
      let differs : not (str_eq e.server s) ≡ false = or_false_left (not (str_eq e.server s)) _ h in
      absurd (cc (q, differs))
]

Serves-start :
    (server : Bytes) (es : List ScriptEntry)
    → IsOnlyServer server es
    → (multi : Bool) → spans_servers es ≡ multi
    → Serves multi none server es
unfolding Serves spans_servers
Serves-start server es o true h = tt
Serves-start server [] o false h = tt
Serves-start server (e ∷ es) o false h =
    let same = one_server e.server (e ∷ es) h in
    subst (λ s. All (λ x. x.server ≡ s) (e ∷ es)) (sym (o same.1)) same

-- The pieces of a collector's script, run from a session in its default database, run the entries'
-- statements in their order: each statement on the instance of its entry, each of a database in that
-- database and each of a server in the default database or in master. The conditions are that the
-- session is on the entries' instance if they have only one, while it may be on any if they have
-- several, and that no statement of a database begins by going to master.
pub chunks-RanAs :
    (c : ScriptCollector) (server : Bytes)
    → IsOnlyServer server c.entries
    → All StaysThere c.entries
    → AllRanAs c.entries (replay server [] (chunks c))
unfolding chunks
chunks-RanAs c server o st =
    write_from-RanAs (spans_servers c.entries) none [] server [] c.entries
      (Serves-start server c.entries o (spans_servers c.entries) refl) Knows-start st
