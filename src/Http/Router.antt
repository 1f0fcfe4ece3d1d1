-- ===== src/Http/Router.antt =====
-- src/http/router.h and router.cc: the table of routes. `std::regex_match` is a parameter.
use gabby.Base.{Bool, List, [], ◌∷◌, ◌++◌, Bytes, if◌then◌else◌}
use gabby.Http.Types.{not_found_status}
use gabby.Http.Writer.{write_status}
use gabby.Http.Server.{Handler}

-- `Router::Route`, with the pattern for the regular expression made from it
pub record Route : Type 0 where
  pub pat : Bytes
  pub handler : Handler

-- `Router::Builder::route`, on the routes so far
unfoldable pub route : List Route → Bytes → Handler → List Route
route routes pat handler = routes ++ record { pat = pat; handler = handler } ∷ []

module _ (regex_match : Bytes → Bytes → Bool) where
  -- `Router::handle`: the first route whose pattern matches the whole path
  unfoldable pub dispatch : List Route → Handler
  unfolding write_status
  dispatch [] req = write_status not_found_status
  dispatch (r ∷ routes) req =
      if regex_match r.pat req.path then r.handler req else dispatch routes req

  -- `Router::Builder::build`
  unfoldable pub build : List Route → Handler
  unfolding dispatch
  build routes = dispatch routes
