-- ===== src/Lifecycle/Rights.antt =====
-- What an account may do in each stage, and when its data may be purged.
use nostr_storage_orchestrat.Common.{
  ◌≡◌, ◌↔◌, ◌⊎◌, true, false, is_some, Option-cases, inl, inr, arith,
}
use nostr_storage_orchestrat.Common.Js.{Date, Runtime}
use nostr_storage_orchestrat.Lifecycle.Config.{LifecycleConfig}
use nostr_storage_orchestrat.Lifecycle.{
  UserStatus, AccessState, EntitlementDates, to_date, paid_access, derive_access,
}

-- The rights of an access state follow from its status alone.
pub record HasRights (a : AccessState) : Type 0 where
  pub upload : (a.can_upload ≡ true) ↔ (a.status ≡ UserStatus.active)
  pub read : (a.can_read ≡ false) ↔ (
      (a.status ≡ UserStatus.unpaid)
      ⊎ (a.status ≡ UserStatus.read_blocked)
      ⊎ (a.status ≡ UserStatus.closed))
  pub delete :
      (a.can_delete ≡ false) ↔ ((a.status ≡ UserStatus.unpaid) ⊎ (a.status ≡ UserStatus.closed))
  pub purge :
      (is_some a.purge_at ≡ true)
      ↔ ((a.status ≡ UserStatus.read_blocked) ⊎ (a.status ≡ UserStatus.closed))

module _ (user : EntitlementDates) (now : Date) (config : LifecycleConfig) (js : Runtime) where
  -- The flags of an access state follow its status: `canUpload` is set exactly when it is ACTIVE, `canRead` exactly
  -- when it is not unpaid, read blocked or closed, `canDelete`, which no route reads, exactly when it is not unpaid or
  -- closed, and a purge date is set exactly in the last two stages.
  pub derive_access-HasRights : HasRights (derive_access js user now config)
  unfolding derive_access paid_access
  derive_access-HasRights = elim (Option-cases (to_date js user.plan_expires_at)) [
    | inl e ↦ rw (e, derive_access) (ground arith)
    | inr (x, e) ↦ rw (e, derive_access) (ground arith)
  ]
