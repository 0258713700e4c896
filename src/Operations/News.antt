-- ===== src/Operations/News.antt =====
-- What backend/src/services/operationTasks.js has not told an owner yet: the list `untold` and the
-- records in the journal folder, which are known by their ids. Times are milliseconds.
use next_explorer.Prelude.{
  ℕ, ◌+◌, Bool, true, false, not, ◌&&◌, List, [], ◌∷◌, ◌++◌, Option, none, some, if◌then◌else◌,
  Text, text_eq, leb, length, filter, any, take,
}
use next_explorer.Operations.Owners.{Owner, same_owner, share_text}

pub data Outcome : Type 0 where
  done failed cancelled : Outcome

pub record Report : Type 0 where
  pub id : Text
  pub kind : Text
  pub owner : Option Owner
  pub share_id : Option Text
  pub destination : Text
  pub name : Option Text
  pub paths : List Text
  pub started_at : ℕ
  pub outcome : Option Outcome
  pub items : ℕ
  pub finished_at : Option ℕ

-- What `keepUntold` reads of a task that ended.
pub record Task : Type 0 where
  pub id : Text
  pub kind : Text
  pub owner : Option Owner
  pub share_id : Option Text
  pub destination : Text
  pub label : Option Text
  pub item_names : List Text
  pub started_at : ℕ
  pub completed_items : ℕ
  pub finished_at : ℕ

pub record State : Type 0 where
  pub untold : List Report
  pub journal : List Text

abbrev pub max_recorded_paths : ℕ
max_recorded_paths = 10

abbrev pub max_untold_per_owner : ℕ
max_untold_per_owner = 50

unfoldable pub mine : Option Owner → Option Text → Report → Bool
mine owner share_id r =
    same_owner r.owner owner && text_eq (share_text r.share_id) (share_text share_id)

-- `outcome` decides which of the two lists a report is in.
abbrev has_outcome : Report → Bool
has_outcome r = elim r.outcome [ none ↦ false | some o ↦ true ]

pub record News : Type 0 where
  pub interrupted : List Report
  pub unreported : List Report

unfoldable pub untold_for : State → Option Owner → Option Text → News
untold_for s owner share_id =
    let theirs = filter (mine owner share_id) s.untold in
    record {
      interrupted = filter (λ r. not (has_outcome r)) theirs;
      unreported = filter has_outcome theirs;
    }

abbrev pub forget_record_of : Text → List Text → List Text
forget_record_of id journal = filter (λ t. not (text_eq t id)) journal

-- no ids, or this one among them
abbrev pub is_wanted : List Text → Text → Bool
is_wanted [] id = true
is_wanted (wanted ∷ ids) id = any (text_eq id) (wanted ∷ ids)

pub record Forgotten : Type 0 where
  pub kept : List Report
  pub journal : List Text
  pub forgotten : ℕ

-- the loop of `forgetUntold`
unfoldable pub forget_loop :
    Option Owner → Option Text → List Text → List Text → List Report → Forgotten
forget_loop owner share_id ids journal [] = record { kept = []; journal = journal; forgotten = 0 }
forget_loop owner share_id ids journal (r ∷ rs) =
    let goes = mine owner share_id r && is_wanted ids r.id in
    let rest =
      forget_loop owner share_id ids (if goes then forget_record_of r.id journal else journal) rs in
    if goes
    then record rest { forgotten = rest.forgotten + 1 }
    else record rest { kept = r ∷ rest.kept }

unfoldable pub forget_untold : State → Option Owner → Option Text → List Text → State × ℕ
unfolding forget_loop
forget_untold s owner share_id ids =
    let all_gone = forget_loop owner share_id ids s.journal s.untold in
    (record { untold = all_gone.kept; journal = all_gone.journal }, all_gone.forgotten)

-- `untold.filter((report) => report !== oldest)`, where `oldest` is the first that is theirs
abbrev pub without_first : (Report → Bool) → List Report → List Report
without_first p [] = []
without_first p (r ∷ rs) = let rest = without_first p rs in if p r then rs else r ∷ rest

-- the loop of `keepUntold` over `theirs`
unfoldable pub make_room : Option Owner → Option Text → List Report → State → State
make_room owner share_id [] s = s
make_room owner share_id (oldest ∷ theirs) s =
    let next = make_room owner share_id theirs (record {
      untold = without_first (mine owner share_id) s.untold;
      journal = forget_record_of oldest.id s.journal;
    }) in
    if leb max_untold_per_owner (length (oldest ∷ theirs)) then next else s

abbrev pub report_of : Task → Outcome → Report
report_of t outcome = record {
  id = t.id;
  kind = t.kind;
  owner = t.owner;
  share_id = t.share_id;
  destination = t.destination;
  name = t.label;
  paths = take max_recorded_paths t.item_names;
  started_at = t.started_at;
  outcome = some outcome;
  items = t.completed_items;
  finished_at = some t.finished_at;
}

unfoldable pub keep_untold : State → Task → Outcome → State
unfolding make_room
keep_untold s t outcome =
    let roomy = make_room t.owner t.share_id (filter (mine t.owner t.share_id) s.untold) s in
    record roomy { untold = roomy.untold ++ report_of t outcome ∷ [] }
