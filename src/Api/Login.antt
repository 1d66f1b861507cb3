-- ===== src/Api/Login.antt =====
-- Logging in by src/app/api/auth.py and the use of its token in src/app/api/deps.py.
use sentraxis.Prelude.{◌∙◌, Bool, Option, none, ◌++◌, Text, codes, find_first, if◌then◌else◌}

abbrev pub bearer : Text → Text
bearer token = codes "Bearer " ++ token
