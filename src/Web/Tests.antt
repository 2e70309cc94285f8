-- ===== src/Web/Tests.antt =====
-- A document root `/w` with the files `index.html` and `a.html`, a link `l` to `/e`, and requests.
use collab_vm_server.Base.{
  ℕ, ◌≡◌, ◌≢◌, refl, Bool, true, false, List, [], ◌∷◌, Option, none, some, if◌then◌else◌, same_text,
}
use collab_vm_server.Web.Paths.{Elements, elements, join, less_path, equal_prefix, any_dots}
use collab_vm_server.Web.{
  FileSystem, Request, Response, file, not_found, get, respond, respond_get, serve_file,
  is_websocket, send_file_response, send_canonical, prepare_file, html, index_html,
}
use collab_vm_server.Web.Serving.{Servable, respond-Servable, respond_returns}

abbrev root : Elements
root = (47 ∷ []) ∷ (119 ∷ []) ∷ []

abbrev outside : Elements
outside = (47 ∷ []) ∷ (101 ∷ []) ∷ []

abbrev page : Elements
page = (47 ∷ []) ∷ (119 ∷ []) ∷ (97 ∷ html) ∷ []

abbrev canonical_path : Elements → Option Elements
canonical_path (a ∷ b ∷ c ∷ []) =
    if same_text c (108 ∷ [])
    then some outside
    else if same_text c (97 ∷ html)
    then some (a ∷ b ∷ c ∷ [])
    else if same_text c index_html
    then some (a ∷ b ∷ c ∷ [])
    else none
canonical_path (a ∷ b ∷ []) = some (a ∷ b ∷ [])
canonical_path path = none

abbrev is_directory : Elements → Option Bool
is_directory (a ∷ b ∷ c ∷ []) = some false
is_directory path = some true

abbrev files : FileSystem
files = record {
  canonical = canonical_path;
  is_directory = is_directory;
  can_open = λ path. true;
  can_prepare = λ path. true;
}

abbrev exists : (value token : List ℕ) → Bool
exists value token = same_text value token

abbrev request : List ℕ → Request
request target = record { method = get; target = target; connection = none; upgrade = none }

-- `/a` is the page `a.html`.
page_found : respond exists files root (request (47 ∷ 97 ∷ [])) ≡ some (file page)
unfolding respond respond_get serve_file is_websocket send_file_response send_canonical prepare_file
    elements join less_path equal_prefix any_dots
page_found = refl

-- `/../e` is refused, and `/l` leads out of the root, so that the index is sent.
dots_refused : respond exists files root (request (47 ∷ 46 ∷ 46 ∷ 47 ∷ 101 ∷ [])) ≡ some not_found
unfolding respond respond_get is_websocket elements any_dots
dots_refused = refl

link_refused : send_file_response files root ((108 ∷ []) ∷ []) ≡ some none
unfolding send_file_response send_canonical join less_path equal_prefix
link_refused = refl

respond-Servable_example : Servable files root page × (get ≡ get)
respond-Servable_example =
    respond-Servable files root exists (request (47 ∷ 97 ∷ [])) page page_found

abbrev link : List ℕ
link = 47 ∷ 108 ∷ []

target_given : link ≢ []
target_given h = absurd cc

respond_returns_example :
    (response : Response) × (respond exists files root (request link) ≡ some response)
respond_returns_example = respond_returns files root exists (request link) target_given
