-- ===== src/Db/Moderation.antt =====
-- packages/db/src/routes/moderation.ts: the audit of moderation deletions, a table of its own.
use nostr_storage_orchestrat.Common.{
  ℕ, Bool, ◌||◌, List, [], ◌∷◌, ◌++◌, String, ◌==◌, string_eq, if◌then◌else◌,
}
use nostr_storage_orchestrat.Db.{Response, success, error}

pub record ModerationAction : Type 0 where
  pub hash : String
  pub npub : String
  pub admin_npub : String
  pub reason : String
  pub created_at : ℕ

abbrev is_incomplete : ModerationAction → Bool
is_incomplete a = a.hash == "" || (a.npub == "" || (a.admin_npub == "" || a.reason == ""))

-- POST /moderation
unfoldable pub post_moderation :
    ModerationAction → List ModerationAction → Response ModerationAction × List ModerationAction
post_moderation a audit =
    if is_incomplete a
    then (error 400 "invalid_moderation_action", audit)
    else (success 201 a, audit ++ a ∷ [])
