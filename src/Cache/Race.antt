-- ===== src/Cache/Race.antt =====
-- `SearchCache` and `InsertCache` of a worker beside `UpdateCache` of the timer's thread, on the cache
-- of the worker, which is not the first one (src/cache.cc): the two flags by which they exclude one
-- another, access by access.
use kwd_server.Base.{◌≡◌, ◌≢◌, refl, Bool, true, false, if◌then◌else◌}

-- Where the worker is: outside of the calls; between the test of `update_` and the setting of
-- `is_reading_`; in the list and its map; in `cache_nonupdate_` under the lock; or in the list by
-- `InsertCache`.
pub data Searcher : Type 0 where
  outside tested in_lists in_frozen inserting : Searcher

-- Where the update is with this cache: before its mark, behind it, in the list of the cache
-- (`WriteToFirstCache` and `ReadFromFirstCache`), or done with it.
pub data Updater : Type 0 where
  before marked in_update finished : Updater

unfoldable pub is_tested : Searcher → Bool
is_tested outside = false
is_tested tested = true
is_tested in_lists = false
is_tested in_frozen = false
is_tested inserting = false

-- `in_window` tells whether the update has ever passed its test while the worker was between its own
-- test and its flag.
pub record Race : Type 0 where
  pub update : Bool
  pub is_reading : Bool
  pub searcher : Searcher
  pub updater : Updater
  pub in_window : Bool

abbrev pub quiet : Race
quiet = record {
  update = false;
  is_reading = false;
  searcher = outside;
  updater = before;
  in_window = false;
}

-- An access of one of the two threads. The first cache alone gets its mark back, so this one keeps it
-- for the updates that follow.
pub data Access : Race → Race → Type 0 where
  finds_free :
      (s : Race)
      → s.searcher ≡ outside
      → s.update ≡ false
      → Access s (record s { searcher = tested })
  finds_update :
      (s : Race)
      → s.searcher ≡ outside
      → s.update ≡ true
      → Access s (record s { searcher = in_frozen })
  begins :
      (s : Race)
      → s.searcher ≡ tested
      → Access s (record s { is_reading = true; searcher = in_lists })
  ends :
      (s : Race)
      → s.searcher ≡ in_lists
      → Access s (record s { is_reading = false; searcher = outside })
  ends_frozen : (s : Race) → s.searcher ≡ in_frozen → Access s (record s { searcher = outside })
  inserts : (s : Race) → s.searcher ≡ outside → Access s (record s { searcher = inserting })
  ends_insert : (s : Race) → s.searcher ≡ inserting → Access s (record s { searcher = outside })
  marks : (s : Race) → s.updater ≡ before → Access s (record s { update = true; updater = marked })
  passes :
      (s : Race)
      → s.updater ≡ marked
      → s.is_reading ≡ false
      → Access s (record s {
        updater = in_update;
        in_window = if is_tested s.searcher then true else s.in_window;
      })
  finishes : (s : Race) → s.updater ≡ in_update → Access s (record s { updater = finished })
  begins_again : (s : Race) → s.updater ≡ finished → Access s (record s { updater = before })

pub data Reach (s : Race) : Race → Type 0 where
  here : Reach s s
  then_by : {t u : Race} → Reach s t → Access t u → Reach s u

-- Both threads are in the list of the cache.
abbrev pub IsClash : Race → Type 0
IsClash s = (s.searcher ≡ in_lists) × (s.updater ≡ in_update)

record IsFlagged (s : Race) : Type 0 where
  reading : s.searcher ≡ in_lists → s.is_reading ≡ true
  behind_mark : s.updater ≡ marked → s.update ≡ true
  under_update : s.updater ≡ in_update → s.update ≡ true
  late_test : s.searcher ≡ tested → s.updater ≡ in_update → s.in_window ≡ true
  late_search : s.searcher ≡ in_lists → s.updater ≡ in_update → s.in_window ≡ true

-- The worker goes where neither its test nor its flag counts.
away-IsFlagged :
    (s : Race) (is_reading : Bool) (searcher : Searcher)
    → searcher ≢ in_lists
    → searcher ≢ tested
    → IsFlagged s
    → IsFlagged (record s { is_reading = is_reading; searcher = searcher })
away-IsFlagged s is_reading searcher not_in not_tested k = record {
  reading = λ e. absurd (not_in e);
  behind_mark = k.behind_mark;
  under_update = k.under_update;
  late_test = λ e. absurd (not_tested e);
  late_search = λ e. absurd (not_in e);
}

Access-IsFlagged : {s t : Race} → Access s t → IsFlagged s → IsFlagged t
unfolding is_tested
Access-IsFlagged (finds_free s out free) k = record {
  reading = λ e. cc e;
  behind_mark = k.behind_mark;
  under_update = k.under_update;
  late_test = λ e up. absurd (cc (k.under_update up, free));
  late_search = λ e. cc e;
}
Access-IsFlagged (finds_update s out updating) k =
    away-IsFlagged s s.is_reading in_frozen (λ e. cc e) (λ e. cc e) k
Access-IsFlagged (begins s test) k = record {
  reading = λ e. refl;
  behind_mark = k.behind_mark;
  under_update = k.under_update;
  late_test = λ e. cc e;
  late_search = λ e up. k.late_test test up;
}
Access-IsFlagged (ends s inside) k = away-IsFlagged s false outside (λ e. cc e) (λ e. cc e) k
Access-IsFlagged (ends_frozen s inside) k =
    away-IsFlagged s s.is_reading outside (λ e. cc e) (λ e. cc e) k
Access-IsFlagged (inserts s out) k =
    away-IsFlagged s s.is_reading inserting (λ e. cc e) (λ e. cc e) k
Access-IsFlagged (ends_insert s inside) k =
    away-IsFlagged s s.is_reading outside (λ e. cc e) (λ e. cc e) k
Access-IsFlagged (marks s first) k = record {
  reading = k.reading;
  behind_mark = λ e. refl;
  under_update = λ e. refl;
  late_test = λ e up. cc up;
  late_search = λ e up. cc up;
}
Access-IsFlagged (passes s mark free) k = record {
  reading = k.reading;
  behind_mark = λ e. cc e;
  under_update = λ e. k.behind_mark mark;
  late_test = λ e up. rw e refl;
  late_search = λ e up. absurd (cc (k.reading e, free));
}
Access-IsFlagged (finishes s inside) k = record {
  reading = k.reading;
  behind_mark = λ e. cc e;
  under_update = λ e. cc e;
  late_test = λ e up. cc up;
  late_search = λ e up. cc up;
}
Access-IsFlagged (begins_again s done) k = record {
  reading = k.reading;
  behind_mark = λ e. cc e;
  under_update = λ e. cc e;
  late_test = λ e up. cc up;
  late_search = λ e up. cc up;
}

Reach-IsFlagged : {s : Race} → Reach quiet s → IsFlagged s
Reach-IsFlagged here = record {
  reading = λ e. cc e;
  behind_mark = λ e. cc e;
  under_update = λ e. cc e;
  late_test = λ e. cc e;
  late_search = λ e. cc e;
}
Reach-IsFlagged (then_by r access) = Access-IsFlagged access (Reach-IsFlagged r)

-- In any interleaving of the searches and insertions of a worker with the updates: a search and an
-- update are in the list of the cache at once only if an update has passed its test of `is_reading_`
-- while a search was between its test of `update_` and the setting of `is_reading_`.
pub Reach-Excludes :
    {s : Race} → Reach quiet s → s.searcher ≡ in_lists → s.updater ≡ in_update → s.in_window ≡ true
Reach-Excludes r inside updating = (Reach-IsFlagged r).late_search inside updating

-- From every state in which a search is between its test and its flag, no search is being noted, and
-- an update is about to begin, the two threads can get into the list of the cache at once.
pub window-Clash :
    (s : Race)
    → s.searcher ≡ tested
    → s.is_reading ≡ false
    → s.updater ≡ before
    → (t : Race) × Reach s t × IsClash t
window-Clash s test free first = (
  _,
  then_by (then_by (then_by here (marks s first)) (passes _ refl free)) (begins _ test),
  (refl, refl),
)

-- From every state in which the worker is outside of the calls and an update is about to begin, an
-- insertion and the update can be in the list of the cache at once.
insert-Clash :
    (s : Race)
    → s.searcher ≡ outside
    → s.is_reading ≡ false
    → s.updater ≡ before
    → (t : Race) × Reach s t × (t.searcher ≡ inserting) × (t.updater ≡ in_update)
insert-Clash s out free first = (
  _,
  then_by (then_by (then_by here (marks s first)) (passes _ refl free)) (inserts _ out),
  refl,
  refl,
)
