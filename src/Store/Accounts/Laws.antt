-- ===== src/Store/Accounts/Laws.antt =====
-- The users and the sessions over the whole life of the database.
use ct_cve.Base.{
  ◌≤◌, ltb, nat_eq, Text, ◌==◌, eq_refl, eq_sym_false, ◌≡◌, refl, arith, length, length-append,
  is_empty, Bool, true, false, any, All, All-weaken, All-append, if◌then◌else◌, some, none, List,
  [], ◌∷◌, ◌++◌, Bool-cases, inl, inr,
}
use ct_cve.CtOps.Time.{Time, timestamptz}
use ct_cve.Auth.{User, NewUser, Session}
use ct_cve.Store.Upsert.{any-end}
use ct_cve.Store.Accounts.{
  Accounts, create_user, user_columns, session_accepted, session_row, create_session,
  find_unexpired, find_session, without, delete_session,
}

has_hash : Text → Session → Bool
has_hash token_hash s = s.token_hash == token_hash

find_unexpired-without :
    (token_hash : Text) (now : Time) (sessions : List Session)
    → find_unexpired token_hash now (without token_hash sessions) ≡ none
unfolding find_unexpired without
find_unexpired-without token_hash now [] = refl
find_unexpired-without token_hash now (s ∷ sessions) =
    elim (Bool-cases (s.token_hash == token_hash)) [
      | inl e ↦ rw e (find_unexpired-without token_hash now sessions)
      | inr e ↦ rw (e, e) (find_unexpired-without token_hash now sessions)
    ]

-- A session that has been deleted is found at no time.
pub find_session-delete_session :
    (token_hash : Text) (now : Time) (a : Accounts)
    → find_session token_hash now (delete_session token_hash a) ≡ none
unfolding find_session delete_session
find_session-delete_session token_hash now a = find_unexpired-without token_hash now a.sessions

find_unexpired-end :
    (new : Session) (now : Time) (sessions : List Session)
    → any (λ (s : Session). s.token_hash == new.token_hash) sessions ≡ false
    → find_unexpired new.token_hash now (sessions ++ new ∷ [])
      ≡ (if ltb (timestamptz now) new.expires_at then some new else none)
unfolding find_unexpired
find_unexpired-end new now [] h = rw (eq_refl new.token_hash)
find_unexpired-end new now (s ∷ sessions) h =
    let later = find_unexpired-end new now sessions in ground arith

accepted-new :
    (new : Session) (a : Accounts)
    → session_accepted new a ≡ true
    → any (λ (s : Session). s.token_hash == new.token_hash) a.sessions ≡ false
unfolding session_accepted
accepted-new new a h = ground arith

created_session :
    (new : Session) (now : Time) (a : Accounts) (b : Bool)
    → session_accepted new a ≡ b
    → (create_session new a).0 ≡ true
    → find_session new.token_hash now (create_session new a).1 ≡ (
        if ltb (timestamptz now) (timestamptz new.expires_at) then some (session_row new) else none)
unfolding create_session find_session session_row
created_session new now a true e h =
    rw e (find_unexpired-end (session_row new) now a.sessions (accepted-new new a e))
created_session new now a false e h = ground arith

-- A session that has been created is found under its hash until the microsecond in which it expires,
-- with its expiry cut to that microsecond as the column is, and is not found from then on.
pub find_session-create_session :
    (new : Session) (now : Time) (a : Accounts)
    → (create_session new a).0 ≡ true
    → find_session new.token_hash now (create_session new a).1 ≡ (
        if ltb (timestamptz now) (timestamptz new.expires_at) then some (session_row new) else none)
find_session-create_session new now a h = created_session new now a (session_accepted new a) refl h

-- One operation on the accounts.
pub data Step : Accounts → Accounts → Type 0 where
  creating_user : (now : Time) (new : NewUser) (a : Accounts) → Step a (create_user now new a).1
  creating_session : (new : Session) (a : Accounts) → Step a (create_session new a).1
  deleting_session : (token_hash : Text) (a : Accounts) → Step a (delete_session token_hash a)

abbrev pub no_accounts : Accounts
no_accounts = record { users = []; sessions = []; next_user_id = 1 }

-- What operations make of the empty tables.
pub data Reachable : Accounts → Type 0 where
  at_start : Reachable no_accounts
  after : {a b : Accounts} → Reachable a → Step a b → Reachable b

abbrev pub IsDistinct : List Session → Type 0
IsDistinct [] = Unit
IsDistinct (s ∷ sessions) =
    (any (λ (x : Session). x.token_hash == s.token_hash) sessions ≡ false) × IsDistinct sessions

abbrev pub HasUser : List User → Session → Type 0
HasUser users s = any (λ (u : User). nat_eq u.id s.user_id) users ≡ true

-- At most one user; each session is of a user, and no two sessions have the same hash.
pub record IsSound (a : Accounts) : Type 0 where
  pub single : length a.users ≤ 1
  pub owned : All (HasUser a.users) a.sessions
  pub distinct : IsDistinct a.sessions

empty_length : (users : List User) → is_empty users ≡ true → length users ≡ 0
empty_length [] e = refl
empty_length (u ∷ users) e = ground arith

no_owner :
    (users : List User) (b : Bool)
    → is_empty users ≡ true
    → (x : Session) → HasUser users x
    → b ≡ true
no_owner [] b e x p = ground arith
no_owner (u ∷ users) b e x p = ground arith

accepted_owner :
    (new : Session) (a : Accounts) → session_accepted new a ≡ true → HasUser a.users new
unfolding session_accepted
accepted_owner new a h = ground arith

create_user-IsSound :
    (now : Time) (new : NewUser) (a : Accounts) → IsSound a → IsSound (create_user now new a).1
unfolding create_user
create_user-IsSound now new a s = elim (Bool-cases (is_empty a.users)) [
  | inl e ↦ elim (Bool-cases (user_columns new)) [
    | inl c ↦
        rw (e, c)
          (record {
            single = omega (arith, length-append a.users _, empty_length a.users e);
            owned = All-weaken (λ x p. no_owner a.users _ e x p) a.sessions s.owned;
            distinct = s.distinct;
          })
    | inr c ↦ rw (e, c) s
  ]
  | inr e ↦ rw e s
]

IsDistinct-end :
    (new : Session) (sessions : List Session)
    → any (λ (x : Session). x.token_hash == new.token_hash) sessions ≡ false
    → IsDistinct sessions
    → IsDistinct (sessions ++ new ∷ [])
IsDistinct-end new [] h d = (refl, tt)
IsDistinct-end new (s ∷ sessions) h (n, d) =
    let e = any-end (λ (x : Session). x.token_hash == s.token_hash) sessions new in
    let other = eq_sym_false s.token_hash new.token_hash in
    (ground arith, IsDistinct-end new sessions (ground arith) d)

create_session-IsSound :
    (new : Session) (a : Accounts) → IsSound a → IsSound (create_session new a).1
unfolding create_session session_row
create_session-IsSound new a s = elim (Bool-cases (session_accepted new a)) [
  | inl e ↦ rw e (record {
    single = s.single;
    owned =
        All-append (HasUser a.users) a.sessions (session_row new ∷ []) s.owned
          (accepted_owner new a e, tt);
    distinct = IsDistinct-end (session_row new) a.sessions (accepted-new new a e) s.distinct;
  })
  | inr e ↦ rw e s
]

All-without :
    (P : Session → Type 0) (token_hash : Text) (sessions : List Session)
    → All P sessions
    → All P (without token_hash sessions)
unfolding without
All-without P token_hash [] h = tt
All-without P token_hash (s ∷ sessions) (p, h) = elim (Bool-cases (s.token_hash == token_hash)) [
  | inl e ↦ rw e (All-without P token_hash sessions h)
  | inr e ↦ rw e (p, All-without P token_hash sessions h)
]

any-without :
    (p : Session → Bool) (token_hash : Text) (sessions : List Session)
    → any p sessions ≡ false
    → any p (without token_hash sessions) ≡ false
unfolding without
any-without p token_hash [] h = refl
any-without p token_hash (s ∷ sessions) h =
    let later = any-without p token_hash sessions in ground arith

IsDistinct-without :
    (token_hash : Text) (sessions : List Session)
    → IsDistinct sessions
    → IsDistinct (without token_hash sessions)
unfolding without
IsDistinct-without token_hash [] d = tt
IsDistinct-without token_hash (s ∷ sessions) (n, d) =
    elim (Bool-cases (s.token_hash == token_hash)) [
      | inl e ↦ rw e (IsDistinct-without token_hash sessions d)
      | inr e ↦ rw e (any-without _ token_hash sessions n, IsDistinct-without token_hash sessions d)
    ]

Step-IsSound : {a b : Accounts} → Step a b → IsSound a → IsSound b
unfolding delete_session
Step-IsSound (creating_user now new a) s = create_user-IsSound now new a s
Step-IsSound (creating_session new a) s = create_session-IsSound new a s
Step-IsSound (deleting_session token_hash a) s = record {
  single = s.single;
  owned = All-without (HasUser a.users) token_hash a.sessions s.owned;
  distinct = IsDistinct-without token_hash a.sessions s.distinct;
}

-- Whatever operations run on the empty tables, in whatever order and with whatever arguments, there
-- is at most one user, each session is of a user that exists, and no two have the same hash.
pub Reachable-IsSound : {a : Accounts} → Reachable a → IsSound a
Reachable-IsSound at_start = record { single = omega arith; owned = tt; distinct = tt }
Reachable-IsSound (after reached step) = Step-IsSound step (Reachable-IsSound reached)
