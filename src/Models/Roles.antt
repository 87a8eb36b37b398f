-- ===== src/Models/Roles.antt =====
-- The hierarchy of roles, models.rs `Role::is_at_least`.
use yaima.Base.{◌≡◌, ◌↔◌, ◌⊎◌, Bool, true, arith}
use yaima.Models.{Role, guest, admin, is_at_least}

-- Being at least as privileged is a total order on roles, with `guest` below and `admin` on top.
pub record IsHierarchy (above : Role → Role → Bool) : Type 0 where
  pub reflexive : (r : Role) → above r r ≡ true
  pub transitive : (r s t : Role) → above r s ≡ true → above s t ≡ true → above r t ≡ true
  pub antisymmetric : (r s : Role) → above r s ≡ true → above s r ≡ true → r ≡ s
  pub total : (r s : Role) → (above r s ≡ true) ⊎ (above s r ≡ true)
  pub top : (r : Role) → (above r admin ≡ true) ↔ (r ≡ admin)
  pub bottom : (r : Role) → above r guest ≡ true

-- `is_at_least` is reflexive, transitive, antisymmetric and total; only an admin is at least an
-- admin, and every role is at least a guest.
pub is_at_least-IsHierarchy : IsHierarchy is_at_least
unfolding is_at_least
is_at_least-IsHierarchy = record {
  reflexive = λ r. ground arith;
  transitive = λ r s t h k. ground arith;
  antisymmetric = λ r s h k. ground arith;
  total = λ r s. ground arith;
  top = λ r. ground arith;
  bottom = λ r. ground arith;
}
