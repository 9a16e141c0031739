-- ===== src/Repository.antt =====
-- internal/repository/alert.go: the interface of an alert store, with what its clients rely on.
pub mod InMemory
pub mod Postgres
use monitoring_tool.Prelude.{
  ℕ, ◌+◌, ◌≤◌, ◌<◌, ◌≡◌, Bool, ◌&&◌, String, str_eq, List, [], ◌∷◌, Option, none, some, ℤ, pos,
  length, count_by,
}
use monitoring_tool.Results.{Result, ok, err, panics}
use monitoring_tool.Models.{Alert, AlertStatus, firing, status_eq}

-- `S` is what the store keeps; only `create` changes it.
pub record AlertRepo (F J S : Type 0) : Type 0 where
  pub create : S → Alert F J → S × Option String
  pub get_recent : S → ℤ → Result (List (Alert F J))
  pub count : S → Result ℕ
  pub count_by_status : S → AlertStatus → Result ℕ
  pub count_by_severity : S → String → Result ℕ

module _ {F J : Type 0} where
  abbrev pub has_status : AlertStatus → Alert F J → Bool
  has_status st a = status_eq a.status st

  abbrev pub fires_with : String → Alert F J → Bool
  fires_with sev a = str_eq a.severity sev && status_eq a.status firing

-- What a store promises while its backend answers: `alerts` are the alerts it holds.
pub record RepoLaws {F J S : Type 0} (r : AlertRepo F J S) (alerts : S → List (Alert F J))
    : Type 0 where
  -- a created alert is held once more, and the others as often as before
  pub created :
      (s : S) (a : Alert F J) (t : S)
      → r.create s a ≡ (t, none)
      → (p : Alert F J → Bool) → count_by p (alerts t) ≡ count_by p (a ∷ alerts s)
  -- a failed creation changes nothing
  pub refused :
      (s : S) (a : Alert F J) (t : S) (e : String)
      → r.create s a ≡ (t, some e)
      → alerts t ≡ alerts s
  pub counts : (s : S) → r.count s ≡ ok (length (alerts s))
  pub counts_status :
      (s : S) (st : AlertStatus) → r.count_by_status s st ≡ ok (count_by (has_status st) (alerts s))
  pub counts_severity :
      (s : S) (sev : String) → r.count_by_severity s sev ≡ ok (count_by (fires_with sev) (alerts s))
  -- a positive limit is respected, nothing is made up, and all are given if they fit
  pub recent :
      (s : S) (limit : ℕ)
      → 0 < limit
      → (found : List (Alert F J)) × (r.get_recent s (pos limit) ≡ ok found)
        × (length found ≤ limit)
        × ((p : Alert F J → Bool) → count_by p found ≤ count_by p (alerts s))
        × (length (alerts s) ≤ limit → length found ≡ length (alerts s))
