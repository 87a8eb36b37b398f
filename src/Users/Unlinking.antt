-- ===== src/Users/Unlinking.antt =====
-- services/user.rs `unlink_oauth_account`: the links that it removes.
use yaima.Base.{
  ◌≡◌, ◌≢◌, refl, ap, sym, ◌∙◌, Bool, true, false, not, List, [], ◌∷◌, arith, nat_eq, select,
  length, any,
}
use yaima.Config.{OAuthProvider}
use yaima.Models.{Uuid, provider_from}
use yaima.External.{Env}
use yaima.Db.{Db, is_link, delete_oauth_credential}
use yaima.Program.{World}
use yaima.Program.Inversion.{Returns, after_query, raise_if-Returns}
use yaima.Users.{unlink_oauth_account}
use yaima.Db.Inserts.{answer}

none_left : {R : Type 0} (p : R → Bool) (rs : List R) → any p (select (λ r. not (p r)) rs) ≡ false
none_left p [] = refl
none_left p (r ∷ rs) = ground (arith, none_left p rs)

some_there : {R : Type 0} (p : R → Bool) (rs : List R) → length (select p rs) ≢ 0 → any p rs ≡ true
some_there p [] h = elim (h refl) [ ]
some_there p (r ∷ rs) h = ground (arith, some_there p rs)

module _ {S : Type 0} (env : Env S) where
  -- What an unlinking has done: there was a link, none is left, and nothing else changed.
  pub record IsUnlinked (user_id : Uuid) (p : OAuthProvider) (before after : Db) : Type 0 where
    pub was_linked : any (is_link user_id (provider_from p)) before.oauth_credentials ≡ true
    pub no_link : any (is_link user_id (provider_from p)) after.oauth_credentials ≡ false
    pub rest : after ≡ record before {
      oauth_credentials =
          select (λ oc. not (is_link user_id (provider_from p) oc)) before.oauth_credentials;
    }

  -- An unlinking that succeeds found a link of the user to the provider and leaves none; every other
  -- row of the database, and thus every other credential, is as it was.
  pub unlink_oauth_account-IsUnlinked :
      (user_id : Uuid) (p : OAuthProvider) (w w' : World S)
      → Returns (unlink_oauth_account env user_id p) w tt w'
      → IsUnlinked user_id p w.db w'.db
  unfolding unlink_oauth_account delete_oauth_credential
  unlink_oauth_account-IsUnlinked user_id p w w' h = after_query w tt w' _ env _ _ h λ n w₁ first h.
      let (count, left) = answer _ n _ w₁.db first in
      let (some_row, same) = raise_if-Returns _ _ w₁ tt w' h in
      let stored = ap (λ x. x.db) (sym same) ∙ left in
      record {
        was_linked =
            some_there (is_link user_id (provider_from p)) w.db.oauth_credentials
              (λ e. ground (arith, count, some_row, e));
        no_link =
            ap (λ (db : Db). any (is_link user_id (provider_from p)) db.oauth_credentials) stored
            ∙ none_left (is_link user_id (provider_from p)) w.db.oauth_credentials;
        rest = stored;
      }
