-- ===== src/Provisioner/Tests.antt =====
-- An edge that takes one bundle and refuses the next.
use santokit.Base.{ℕ, Option, none, some, List, [], ◌∷◌, Text, lit}
use santokit.Provisioner.{EdgeBundle, Config, KvRequest, put, delete, provision}
use santokit.Provisioner.Laws.{Did, provision_lem}

-- The edge answers 201 to the first upload and 500 afterwards.
edge : List Text → KvRequest → List Text × Option ℕ
edge [] (put url auth bundle) = (url ∷ [], some 201)
edge (u ∷ urls) (put url auth bundle) = (u ∷ urls, some 500)
edge urls (delete url auth) = (urls, some 404)

abbrev config : Config
config = record { kv_url = lit "http://kv"; kv_token = lit "t" }

abbrev bundle : Text → EdgeBundle
bundle key = record { key = key; content = lit "x"; hash = []; expires_at = none }

provision_lem_example :
    Did edge config []
      (bundle (lit "a") ∷ bundle (lit "b") ∷ [])
      (provision edge config [] (bundle (lit "a") ∷ bundle (lit "b") ∷ [])).0
      (provision edge config [] (bundle (lit "a") ∷ bundle (lit "b") ∷ [])).1
provision_lem_example = provision_lem edge config [] (bundle (lit "a") ∷ bundle (lit "b") ∷ [])
