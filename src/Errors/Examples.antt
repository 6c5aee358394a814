-- ===== src/Errors/Examples.antt =====
-- Two internal failures that a client cannot tell apart.
use keylo.Base.{◌≡◌, ◌↔◌}
use keylo.Errors.{database_error, into_response}
use keylo.Errors.Responses.{into_response_iff}

into_response_iff_example :
    (((into_response (database_error "secret")).code
        ≡ (into_response (database_error "other")).code)
      ↔ (database_error "" ≡ database_error ""))
    × ((into_response (database_error "secret") ≡ into_response (database_error "other"))
        ↔ (database_error "" ≡ database_error ""))
into_response_iff_example = into_response_iff (database_error "secret") (database_error "other")
