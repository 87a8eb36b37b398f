-- ===== src/Db/Inserts.antt =====
-- What an insertion that is answered has established: the values that it claims were free.
use yaima.Base.{
  ◌≡◌, refl, ◌++◌, String, Bool, true, false, not, [], ◌∷◌, if◌then◌else◌, nat_eq, string_eq,
  has_key,
}
use yaima.Models.{Uuid, OffsetDateTime, User, LocalCredential}
use yaima.Errors.{SqlxError}
use yaima.Db.{
  Db, Answer, answered, refused, new_user, new_credential, insert_user, insert_local_credential,
}

-- A statement under three constraints that is answered violates none.
none_refused :
    {A : Type 0} (p q r : Bool) (e f g : SqlxError) (m : Answer A) (a : A) (db : Db)
    → (if p then refused e else if q then refused f else if r then refused g else m) ≡ answered a db
    → (q ≡ false) × (m ≡ answered a db)
none_refused true q r e f g m a db h = cc
none_refused false true r e f g m a db h = cc
none_refused false false true e f g m a db h = cc
none_refused false false false e f g m a db h = (refl, h)

pub answer :
    {A : Type 0} (a b : A) (db db' : Db) → answered a db ≡ answered b db' → (b ≡ a) × (db' ≡ db)
answer a b db db' h = (cc, cc)

-- A new user in the table: its address was free.
pub record IsNewUser (now : OffsetDateTime) (id : Uuid) (email name : String) (before : Db)
    (u : User) (after : Db) : Type 0 where
  pub is : u ≡ new_user now id email name
  pub email_free : has_key (λ u. u.email) email before.users ≡ false
  pub stored : after ≡ record before { users = before.users ++ u ∷ [] }

pub insert_user-IsNewUser :
    (now : OffsetDateTime) (id : Uuid) (email name : String) (db : Db) (u : User) (db' : Db)
    → insert_user now id email name db ≡ answered u db'
    → IsNewUser now id email name db u db'
unfolding insert_user
insert_user-IsNewUser now id email name db u db' h =
    let (email_free, h) =
      none_refused (has_key (λ u. u.id) id db.users) (has_key (λ u. u.email) email db.users)
        (has_key (λ u. u.display_name) name db.users) _ _ _ _ u db' h in
    let (is, stored) = answer _ u _ db' h in
    record { is = is; email_free = email_free; stored = rw is stored }

-- A new credential in the table: its username was free, and its user was there.
pub record IsNewCredential (now : OffsetDateTime) (id : Uuid) (username hash : String) (before : Db)
    (c : LocalCredential) (after : Db) : Type 0 where
  pub is : c ≡ new_credential now id username hash
  pub username_free : has_key (λ c. c.username) username before.local_credentials ≡ false
  pub stored : after ≡ record before { local_credentials = before.local_credentials ++ c ∷ [] }

pub insert_local_credential-IsNewCredential :
    (now : OffsetDateTime) (id : Uuid) (username hash : String) (db : Db) (c : LocalCredential)
    (db' : Db)
    → insert_local_credential now id username hash db ≡ answered c db'
    → IsNewCredential now id username hash db c db'
unfolding insert_local_credential
insert_local_credential-IsNewCredential now id username hash db c db' h =
    let (username_free, h) =
      none_refused (has_key (λ c. c.user_id) id db.local_credentials)
        (has_key (λ c. c.username) username db.local_credentials)
        (not (has_key (λ u. u.id) id db.users)) _ _ _ _ c db' h in
    let (is, stored) = answer _ c _ db' h in
    record { is = is; username_free = username_free; stored = rw is stored }
