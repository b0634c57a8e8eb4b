-- ===== src/Tests/Resolved.antt =====
-- The resolution cache: its theorem at an input.
use ctxfs.Common.{
  ◌-◌, ◌≡◌, true, ◌&&◌, none, some, [], Text, text, Text-discrete, ltb, if◌then◌else◌, ite,
}
use ctxfs.Cache.Resolution.{
  ResolutionCache, ResolutionJson, get_resolution, put_resolution, get_resolution-put_resolution,
}

abbrev json : ResolutionJson Text
json = record { to_vec = λ es. some []; from_slice = λ content. none }

abbrev fresh : ResolutionCache Text
fresh = record { entries = []; latest_ttl_secs = 60; file = none }

get_resolution-put_resolution_example :
    get_resolution Text 200
      (text "npm:a")
      (put_resolution Text json true 100 (text "npm:a") (text "o/a") true fresh).1
    ≡ ite
        (Text-discrete (text "npm:a") (text "npm:a"))
        (if true && ltb 60 (200 - 100) then none else some (text "o/a"))
        (get_resolution Text 200 (text "npm:a") fresh)
get_resolution-put_resolution_example =
    get_resolution-put_resolution Text json true 100 200 (text "npm:a") (text "npm:a") (text "o/a")
      true fresh
