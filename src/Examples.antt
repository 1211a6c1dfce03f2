-- ===== src/Examples.antt =====
-- The theorems at concrete inputs, with the data that the files share.
mod Access
mod Keys
mod Building
mod Stores
mod Mailing
mod Naming
mod Sending
mod Dispatching
mod Validating
mod Transmitting
use kannon.Base.{List, [], ◌∷◌, text}
use kannon.Values.{DomainName}
use kannon.Tracking.{Policy, mode_unspecified, mode_anonymous, mode_full, mode_identified}

abbrev pub acme : DomainName
acme = record { s = text "acme.test" }

abbrev pub globex : DomainName
globex = record { s = text "globex.test" }

abbrev pub anonymous_opens : Policy
anonymous_opens = record { opens = mode_anonymous; links = mode_unspecified }

abbrev pub all_full : Policy
all_full = record { opens = mode_full; links = mode_full }

abbrev pub identified_links : Policy
identified_links = record { opens = mode_unspecified; links = mode_identified }
