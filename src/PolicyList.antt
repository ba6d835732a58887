-- ===== src/PolicyList.antt =====
-- The lists of src/ipstat_system_time_policy and src/src/ipstat_url_policy.c that give a user, a group
-- or a kind of traffic its policy: five structures, alike but for the name of the key.
use ipstat.Base.{ℕ, ◌+◌, ◌-◌, ◌%◌, ◌^◌, ◌≤◌, refl, Bool, true, List, ltb, take, arith}
use ipstat.Mirror.{Kind}
use ipstat.Mirror.Law.{IsMirror}

-- `key` is `id_user`, `id_group_user`, `id_type_traffic` or `id_group_traffic`.
pub record NodePolicy : Type 0 where
  pub key : ℕ
  pub id_policy : ℕ
  pub def : ℕ
  pub md5 : List ℕ
  pub time_live : ℕ

-- The columns of a row, as `atoi` reads them; the listing has the key and the fingerprint of them.
pub record RowPolicy : Type 0 where
  pub key : ℕ
  pub id_policy : ℕ
  pub def : ℕ
  pub md5 : List ℕ

-- The assignments that an insertion and an update share; `def` is a `guint8`.
unfoldable pub policy_node : ℕ → RowPolicy → NodePolicy
policy_node now r = record {
  key = r.key;
  id_policy = r.id_policy;
  def = r.def % 2 ^ 8;
  md5 = take 32 r.md5;
  time_live = now;
}

-- `(time(NULL) - node->time_live) > 90`, where the difference is signed.
abbrev pub expired : ℕ → ℕ → Bool
expired later time_live = ltb 90 (later - time_live)

unfoldable pub policy_kind :
    {Query : Type 0} → Query → (ℕ → Query) → Kind NodePolicy RowPolicy Query
policy_kind listing by_key = record {
  key = λ n. n.key;
  md5 = λ n. n.md5;
  row_key = λ r. r.key;
  row_md5 = λ r. take 32 r.md5;
  accepts = λ r. true;
  fresh = λ now r. policy_node now r;
  renew = λ now r n. policy_node now r;
  found = λ now n. n;
  kept = λ now n. record n { time_live = now };
  is_dead = λ later n. expired later n.time_live;
  listing = listing;
  by_key = by_key;
}

-- What a node or a row says: the policy and the default.
abbrev pub policy_of : NodePolicy → ℕ × ℕ
policy_of n = (n.id_policy, n.def)

abbrev pub row_policy : RowPolicy → ℕ × ℕ
row_policy r = (r.id_policy, r.def % 2 ^ 8)

pub policy_kind-IsMirror :
    {Query : Type 0} (listing : Query) (by_key : ℕ → Query) (now later : ℕ)
    → later ≤ now + 90
    → IsMirror (policy_kind listing by_key) now later policy_of row_policy
unfolding policy_kind policy_node
policy_kind-IsMirror listing by_key now later h = record {
  fresh_key = λ r. refl;
  renew_key = λ r n. refl;
  found_key = λ n. refl;
  kept_key = λ n. refl;
  fresh_view = λ r. refl;
  renew_view = λ r n. refl;
  found_view = λ n. refl;
  kept_view = λ n. refl;
  fresh_alive = λ r. ground arith;
  found_alive = λ n. ground arith;
  renew_alive = λ r n. ground arith;
}
