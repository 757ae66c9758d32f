-- ===== src/M4/Scdb/Statements.antt =====
-- The SQL statements of litwindow/server/engines/m4_engine.go.
use drivechain_litwindow.Prelude.{
  ℕ, suc, ◌+◌, ◌-◌, Bool, true, false, not, ◌&&◌, Option, none, some, List, [], ◌∷◌, ◌++◌, map,
  Bytes, get_elem?, same, ltb, leb, some_item, keep, sort_by, ◌==◌, if◌then◌else◌,
}
use drivechain_litwindow.M4.Message.{
  VoteType, M4Vote, M4Message, M3Message, min_work_score, withdrawal_max_age,
}
use drivechain_litwindow.M4.Scdb.{BundleStatus, pending, approved, failed, expired, Bundle, Tables}

abbrev pub is_pending : BundleStatus → Bool
is_pending pending = true
is_pending approved = false
is_pending failed = false
is_pending expired = false

-- INSERT INTO m3_messages … ON CONFLICT(block_height, sidechain_slot, bundle_hash) DO NOTHING
abbrev pub is_m3_row : M3Message → M3Message → Bool
is_m3_row msg r =
    r.block_height == msg.block_height
    && (r.sidechain_slot == msg.sidechain_slot && same r.bundle_hash msg.bundle_hash)

unfoldable pub insert_m3_message : M3Message → ℕ → Tables → Tables
insert_m3_message msg now t = if some_item (is_m3_row msg) t.m3_messages then t else record t {
  m3_messages = t.m3_messages ++ record msg { id = t.next_m3; created_at = now } ∷ [];
  next_m3 = suc t.next_m3;
}

-- The connection's latest row id after it: a conflict inserts no row.
unfoldable pub inserted_m3 : M3Message → Tables → ℕ → ℕ
inserted_m3 msg t last_rowid =
    if some_item (is_m3_row msg) t.m3_messages then last_rowid else t.next_m3

-- The row of a bundle that a message at its height proposes.
abbrev pub new_bundle : M3Message → ℕ → ℕ → Bundle
new_bundle msg id now = record {
  id = id;
  sidechain_slot = msg.sidechain_slot;
  bundle_hash = msg.bundle_hash;
  work_score = 1;
  blocks_left = withdrawal_max_age;
  max_age = withdrawal_max_age;
  first_seen_height = msg.block_height;
  last_updated_height = msg.block_height;
  status = pending;
  created_at = now;
  updated_at = now;
}

abbrev pub is_bundle : ℕ → Bytes → Bundle → Bool
is_bundle slot hash b = b.sidechain_slot == slot && same b.bundle_hash hash

-- INSERT INTO withdrawal_bundles … ON CONFLICT(sidechain_slot, bundle_hash) DO NOTHING
unfoldable pub insert_bundle : M3Message → ℕ → Tables → Tables
insert_bundle msg now t =
    if some_item (is_bundle msg.sidechain_slot msg.bundle_hash) t.bundles then t else record t {
      bundles = t.bundles ++ new_bundle msg t.next_bundle now ∷ [];
      next_bundle = suc t.next_bundle;
    }

unfoldable pub inserted_bundle : M3Message → Tables → ℕ → ℕ
inserted_bundle msg t last_rowid =
    if some_item (is_bundle msg.sidechain_slot msg.bundle_hash) t.bundles
    then last_rowid
    else t.next_bundle

abbrev pub is_m4_row : ℕ → Bytes → M4Message → Bool
is_m4_row height hash r = r.block_height == height && same r.block_hash hash

-- INSERT INTO m4_messages … ON CONFLICT(block_height, block_hash) DO UPDATE SET raw_bytes, version.
-- An update inserts no row, so the connection's latest row id stays what it was.
unfoldable pub upsert_m4_message : M4Message → ℕ → ℕ → Tables → Tables × ℕ
upsert_m4_message msg now last_rowid t =
    if some_item (is_m4_row msg.block_height msg.block_hash) t.m4_messages
    then (
      record t {
        m4_messages =
            map
              (λ (r : M4Message).
                if is_m4_row msg.block_height msg.block_hash r
                then record r { raw_bytes = msg.raw_bytes; version = msg.version }
                else r)
              t.m4_messages;
      },
      last_rowid,
    )
    else (
      record t {
        m4_messages =
            t.m4_messages ++ record msg { id = t.next_m4; votes = []; created_at = now } ∷ [];
        next_m4 = suc t.next_m4;
      },
      t.next_m4,
    )

-- DELETE FROM m4_votes WHERE m4_message_id = ?
unfoldable pub delete_votes : ℕ → ℕ → Tables → Tables
delete_votes msg_id now t = record t {
  m4_votes = keep (λ (v : M4Vote). not (v.m4_message_id == msg_id)) t.m4_votes;
}

-- INSERT INTO m4_votes
unfoldable pub insert_vote : ℕ → ℕ → VoteType → Option ℕ → ℕ → ℕ → Tables → Tables × ℕ
insert_vote msg_id slot vote_type bundle_index now last_rowid t = (
  record t {
    m4_votes =
        t.m4_votes
        ++ record {
          id = t.next_vote;
          m4_message_id = msg_id;
          sidechain_slot = slot;
          vote_type = vote_type;
          bundle_hash = none;
          bundle_index = bundle_index;
        }
          ∷ [];
    next_vote = suc t.next_vote;
  },
  t.next_vote,
)

abbrev pub is_votable : ℕ → Bundle → Bool
is_votable slot b = b.sidechain_slot == slot && is_pending b.status

-- SELECT … WHERE sidechain_slot = ? AND status = 'pending' ORDER BY first_seen_height ASC
unfoldable pub votable : ℕ → List Bundle → List Bundle
votable slot bs = sort_by (λ (b : Bundle). b.first_seen_height) (keep (is_votable slot) bs)

abbrev pub raise_score : ℕ → ℕ → Bundle → Bundle
raise_score height now b = record b {
  work_score = b.work_score + 1;
  last_updated_height = height;
  updated_at = now;
}

-- The row that the order, the limit and the offset pick, among those that the condition admits.
abbrev pub picked : Option Bundle → ℕ → Bundle → Bool
picked none slot b = false
picked (some row) slot b = is_votable slot b && b.id == row.id

abbrev pub raise_picked : Option Bundle → ℕ → ℕ → ℕ → Bundle → Bundle
raise_picked row height slot now b = if picked row slot b then raise_score height now b else b

-- UPDATE … SET work_score = work_score + 1 … ORDER BY first_seen_height ASC LIMIT 1 OFFSET ?
unfoldable pub upvote_bundle : ℕ → ℕ → ℕ → ℕ → Tables → Tables
unfolding votable
upvote_bundle height slot offset now t =
    let row = get_elem? (votable slot t.bundles) offset in
    record t { bundles = map (raise_picked row height slot now) t.bundles }

-- UPDATE … SET work_score = MAX(0, work_score - 1) …
abbrev pub lower_score : ℕ → ℕ → ℕ → Bundle → Bundle
lower_score height slot now b =
    if is_votable slot b
    then record b { work_score = b.work_score - 1; last_updated_height = height; updated_at = now }
    else b

unfoldable pub alarm_bundles : ℕ → ℕ → ℕ → Tables → Tables
alarm_bundles height slot now t = record t { bundles = map (lower_score height slot now) t.bundles }

-- UPDATE … SET last_updated_height = ? …
abbrev pub touch : ℕ → ℕ → Bundle → Bundle
touch height slot b = if is_votable slot b then record b { last_updated_height = height } else b

unfoldable pub touch_bundles : ℕ → ℕ → ℕ → Tables → Tables
touch_bundles height slot now t = record t { bundles = map (touch height slot) t.bundles }

-- UPDATE … SET blocks_left = blocks_left - 1 … WHERE status = 'pending' AND blocks_left > 0
abbrev pub age : ℕ → Bundle → Bundle
age now b =
    if is_pending b.status && ltb 0 b.blocks_left
    then record b { blocks_left = b.blocks_left - 1; updated_at = now }
    else b

-- UPDATE … SET status = 'approved' WHERE status = 'pending' AND work_score >= 13150
abbrev pub approve : Bundle → Bundle
approve b =
    if is_pending b.status && leb min_work_score b.work_score
    then record b { status = approved }
    else b

-- UPDATE … SET status = 'failed' WHERE status = 'pending' AND blocks_left = 0 AND work_score < 13150
abbrev pub fail : Bundle → Bundle
fail b =
    if is_pending b.status && (b.blocks_left == 0 && ltb b.work_score min_work_score)
    then record b { status = failed }
    else b

-- UPDATE … SET status = 'expired' WHERE status = 'pending' AND blocks_left = 0
abbrev pub expire : Bundle → Bundle
expire b = if is_pending b.status && b.blocks_left == 0 then record b { status = expired } else b

unfoldable pub age_bundles : ℕ → Tables → Tables
age_bundles now t = record t { bundles = map (age now) t.bundles }

unfoldable pub approve_bundles : ℕ → Tables → Tables
approve_bundles now t = record t { bundles = map approve t.bundles }

unfoldable pub fail_bundles : ℕ → Tables → Tables
fail_bundles now t = record t { bundles = map fail t.bundles }

unfoldable pub expire_bundles : ℕ → Tables → Tables
expire_bundles now t = record t { bundles = map expire t.bundles }
