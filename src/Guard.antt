-- ===== src/Guard.antt =====
-- src/guard.rs: the state of a guard session, the scope of its changes, and the tree's digest.
pub mod Scope
pub mod Verify
pub mod Gate
pub mod Commit
pub mod Evidence
pub mod Finalized
pub mod Reuse
pub mod Advice
pub mod Audit
pub mod Replay
pub mod Plan
pub mod Begin
pub mod Laundering
use perdure.Prelude.{
  ℕ, Text, Bool, true, false, not, ◌&&◌, ◌||◌, Option, none, some, List, [], ◌∷◌, ◌++◌, codes, any,
  contains, retain, map, as_bytes, if◌then◌else◌,
}
use perdure.Prelude.Map
use perdure.Prelude.TextOrder.{sort_texts, dedup}
use perdure.Glob.{glob_match}
use perdure.Goal.{GoalSpec, AllowSpec, allowed_writes}
use perdure.Json.{Value, Number, json, string, array, items_of, get, as_bool, is_zero_i64}
use perdure.Run.{RunState, Receipt, Receipts, History}
use perdure.Snapshot.{
  EntryKind, regular, symlink, ManifestEntry, Manifest, Entries, Ignore, snapshot, Diff, diff,
  changed, signature, content_hash,
}

-- What a session has on disk: the goal, the baseline and the ignore set that `begin` froze, the
-- working tree, the receipts, the history and the state.
pub record Session : Type 0 where
  pub spec : GoalSpec
  pub baseline : Manifest
  pub ignore : Ignore
  pub tree : Entries
  pub receipts : Receipts
  pub log : History
  pub state : RunState

unfoldable pub is_link : Option ManifestEntry → Bool
is_link none = false
is_link (some e) = elim e.kind [ regular ↦ false | symlink ↦ true ]

-- `in_writable`: without a grant nothing is writable.
in_globs : Option (List Text) → Text → Bool
in_globs none path = false
in_globs (some globs) path = any (λ g. glob_match g path) globs

unfoldable pub in_writable : GoalSpec → Text → Bool
unfolding in_globs
in_writable spec path = in_globs (allowed_writes spec) path

-- The loop over `head`: the links that stand in the writable scope.
add_links : (Text → Bool) → Manifest → List Text → List Text
add_links writable [] out = out
add_links writable ((path, e) ∷ head) out =
    let next =
      if is_link (some e) && writable path && not (contains out path)
      then out ++ path ∷ []
      else out in
    add_links writable head next

pub record ScopeDiff : Type 0 where
  pub head : Manifest
  pub changes : Diff
  pub in_scope : List Text
  pub out_of_scope : List Text

-- A changed path is in scope if it is writable and no link.
unfoldable pub is_in_scope : GoalSpec → Manifest → Text → Bool
is_in_scope spec head path = in_writable spec path && not (is_link (Map.lookup path head))

unfoldable pub classify : GoalSpec → Manifest → Manifest → ScopeDiff
unfolding add_links
classify spec baseline head =
    let changes = diff baseline head in
    record {
      head = head;
      changes = changes;
      in_scope = retain (is_in_scope spec head) (changed changes);
      out_of_scope = dedup (
          sort_texts (
            add_links (in_writable spec) head
              (retain (λ p. not (is_in_scope spec head p)) (changed changes))));
    }

unfoldable pub scope_diff : Session → ScopeDiff
scope_diff s = classify s.spec s.baseline (snapshot s.tree s.ignore)

-- `manifest_digest`: a line of path and signature for each entry.
manifest_lines : Manifest → Text
manifest_lines [] = []
manifest_lines ((p, e) ∷ m) = p ++ 0 ∷ (signature e ++ 10 ∷ manifest_lines m)

unfoldable pub manifest_digest : Manifest → Text
unfolding manifest_lines
manifest_digest m = content_hash (as_bytes (manifest_lines m))

-- A vector of texts as JSON.
unfoldable pub strings : List Text → Value
strings ts = array (items_of (map string ts))

unfoldable pub scope_violation : Manifest → Text → List Text → Value
scope_violation head path allowed = json (
    (codes "path", string path)
    ∷ (codes "allowed", strings allowed)
    ∷ (
      codes "reason",
      string (if is_link (Map.lookup path head) then codes "symlink" else codes "out_of_scope"),
    )
    ∷ [])

-- A receipt passes if its command exited 0 and did not time out.
not_timed_out : Option Value → Bool
not_timed_out none = true
not_timed_out (some v) = elim (as_bool v) [ none ↦ true | some b ↦ not b ]

unfoldable pub receipt_passed : Receipt → Bool
unfolding not_timed_out
receipt_passed r =
    is_zero_i64 (get r.output (codes "exit_code"))
    && not_timed_out (get r.output (codes "timed_out"))

-- `log.append`.
unfoldable pub append : Session → Text → Value → Session
append s kind payload = record s { log = s.log ++ (kind, payload) ∷ [] }
