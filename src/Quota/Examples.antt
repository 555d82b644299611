-- ===== src/Quota/Examples.antt =====
-- Witness for the theorem on quotas.
use lapdev.Base.{◌≡◌, true, false, none, some, List, [], ◌∷◌}
use lapdev.Base.Int.{pos, negsuc}
use lapdev.Quota.{QuotaRow, workspace, project, user_level, check}
use lapdev.Quota.Limits.{check-refuses}

-- Twenty workspaces for the organization 9, and two for each user of it; limits of
-- another organization, of another kind and a deleted one.
abbrev table : List QuotaRow
table =
    record { deleted = false; organization = 9; kind = workspace; user = none; value = pos 20 }
    ∷ record { deleted = false; organization = 9; kind = workspace; user = some 0; value = pos 2 }
    ∷ record {
      deleted = false;
      organization = 9;
      kind = workspace;
      user = some 4;
      value = negsuc 0;
    }
    ∷ record { deleted = false; organization = 8; kind = workspace; user = some 4; value = pos 6 }
    ∷ record { deleted = false; organization = 9; kind = project; user = some 4; value = pos 7 }
    ∷ record { deleted = true; organization = 9; kind = workspace; user = some 4; value = pos 8 }
    ∷ []

check-refuses_example :
    check workspace 9 4 table 2 3
    ≡ some (record { kind = workspace; level = user_level; existing = 2; quota = 2 })
check-refuses_example = check-refuses workspace 9 4 table 2 3
