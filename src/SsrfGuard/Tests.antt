-- ===== src/SsrfGuard/Tests.antt =====
-- The guard's theorem where the name server answers to the second lookup with another address.
use multi_agent_intel_pipeli.Prelude.{
  String, ◌==◌, if◌then◌else◌, true, false, refl, [], ◌∷◌, none, some, strip,
}
use multi_agent_intel_pipeli.SsrfGuard.{Network, open_website}
use multi_agent_intel_pipeli.SsrfGuard.Pinned.{IsPinned, open_website-IsPinned}

abbrev network : String → Network
network answer = record {
  lower = λ s. s;
  is_global = λ s.
      if s == "127.0.0.1" then some false else if s == "93.184.216.34" then some true else none;
  addresses = λ host. some (answer ∷ []);
  parse = λ url. some (record { scheme = "https"; hostname = some "acme.com" });
}

open_website-IsPinned_example :
    IsPinned
      (network "93.184.216.34")
      (network "127.0.0.1")
      ((network "93.184.216.34").parse (strip "https://acme.com"))
      (open_website (network "93.184.216.34") (network "127.0.0.1") "https://acme.com")
open_website-IsPinned_example =
    open_website-IsPinned (network "93.184.216.34") (network "127.0.0.1") refl refl
      "https://acme.com"
