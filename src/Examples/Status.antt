-- ===== src/Examples/Status.antt =====
-- The theorems on the learning worker's status and command line, at concrete inputs.
use prometheus_knowledge_rs.Prelude.{◌≡◌, refl, true, false, List, [], ◌∷◌, codes}
use prometheus_knowledge_rs.Worker.Disk.{memory_accepted, Location, at}
use prometheus_knowledge_rs.Worker.Quarantine.{quarantine}
use prometheus_knowledge_rs.Worker.Health.{queue_status}
use prometheus_knowledge_rs.Worker.Health.Agreement.{IsAgreed, quarantine-queue_status}
use prometheus_knowledge_rs.Worker.Duration.{seconds, parse_duration}
use prometheus_knowledge_rs.Examples.Sample.{Content, operation_file, sample_host, waiting}

abbrev queue : List (Location × Content)
queue = (at memory_accepted "op-1.json", operation_file waiting) ∷ []

quarantine-queue_status_example :
    let (result, after) =
      quarantine sample_host false "m1.json" 5 true 9 (record { files = queue; faults = [] }) in
    (after ≡ record { files = queue; faults = [] })
    × IsAgreed sample_host queue (queue_status sample_host 9 5 queue).stale_operations result
quarantine-queue_status_example =
    quarantine-queue_status sample_host false "m1.json" 5 9 (record { files = queue; faults = [] })

six_hours : parse_duration (codes " 6h ") ≡ seconds 21600
unfolding parse_duration
six_hours = refl
