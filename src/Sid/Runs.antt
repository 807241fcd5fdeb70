-- ===== src/Sid/Runs.antt =====
-- Stream identifiers at concrete values.
use dquic.Base.{ℕ, ◌+◌, ◌^◌, ◌≡◌, ◌≤◌, ◌<◌, ◌⊎◌, ret, panic}
use dquic.Role.{server, uni}
use dquic.Sid.{max_streams_limit, new, role_of, dir_of, id_of, next_unchecked}
use dquic.Sid.Ids.{new_lem}

new_lem_example :
    ((10 ≤ max_streams_limit)
      × ((s : ℕ) × (new server uni 10 ≡ ret s)
          × (s < 2 ^ 62)
          × (role_of s ≡ server)
          × (dir_of s ≡ uni)
          × (id_of s ≡ 10)
          × (role_of (next_unchecked s) ≡ server)
          × (dir_of (next_unchecked s) ≡ uni)
          × (id_of (next_unchecked s) ≡ 10 + 1)))
    ⊎ ((max_streams_limit < 10) × (new server uni 10 ≡ panic))
new_lem_example = new_lem server uni 10
