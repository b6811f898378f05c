-- ===== src/Stores/Admission.antt =====
-- `MemoryConcurrentAdmissionStore`: how many requests are in flight for a key.
pub mod InFlight
pub mod Refinement
use sdkwork_web_framework.Base.{
  ℕ, ◌+◌, ◌-◌, Bool, true, false, Option, none, some, if◌then◌else◌, leb, ◌==◌, is_some, unwrap_or,
  Result, ok, err,
}
use sdkwork_web_framework.Base.Text.{Str, lit}
use sdkwork_web_framework.Base.Dict
use sdkwork_web_framework.Base.Dict.{Dict}
use sdkwork_web_framework.Errors.{WebFrameworkError, rate_limit_exceeded}

-- the field `active`
abbrev pub ActiveCounts : Type 0
ActiveCounts = Dict ℕ

-- `entry(key).or_insert(0)`
unfoldable pub or_insert : Str → ActiveCounts → ActiveCounts
or_insert key active = if is_some (Dict.get key active) then active else Dict.insert key 0 active

unfoldable pub count_of : Str → ActiveCounts → ℕ
count_of key active = unwrap_or (Dict.get key active) 0

unfoldable pub try_acquire :
    Str → ℕ → ActiveCounts → ActiveCounts × Result (Unit {0}) WebFrameworkError
unfolding or_insert count_of
try_acquire key limit active =
    if limit == 0
    then (active, ok tt)
    else let entered = or_insert key active in
      let count = count_of key entered in
      if leb limit count
      then (entered, err (rate_limit_exceeded (lit "tenant concurrent request limit exceeded") 1))
      else (Dict.insert key (count + 1) entered, ok tt)

unfoldable pub release : Str → ActiveCounts → ActiveCounts
release key active = elim (Dict.get key active) [
  | none ↦ active
  | some count ↦
      if count - 1 == 0 then Dict.remove key active else Dict.insert key (count - 1) active
]
