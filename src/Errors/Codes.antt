-- ===== src/Errors/Codes.antt =====
-- internal/diagnostics/error_types.go: the numbers of the error codes and their descriptions.
use docker_net_doctor.Prelude.{List, [], ◌∷◌}
use docker_net_doctor.Prelude.Int.{ℤ, pos}
use docker_net_doctor.Prelude.Text.{Text, codes}

-- ErrCodeX of the source is `code_x`.
abbrev pub code_generic : ℤ
code_generic = pos 0

abbrev pub code_unknown : ℤ
code_unknown = pos 1

abbrev pub code_internal : ℤ
code_internal = pos 2

abbrev pub code_docker_daemon_unreachable : ℤ
code_docker_daemon_unreachable = pos 1000

abbrev pub code_docker_api_version_mismatch : ℤ
code_docker_api_version_mismatch = pos 1001

abbrev pub code_docker_permission_denied : ℤ
code_docker_permission_denied = pos 1002

abbrev pub code_docker_socket_not_found : ℤ
code_docker_socket_not_found = pos 1003

abbrev pub code_docker_daemon_not_running : ℤ
code_docker_daemon_not_running = pos 1004

abbrev pub code_resource_exhaustion : ℤ
code_resource_exhaustion = pos 1100

abbrev pub code_out_of_memory : ℤ
code_out_of_memory = pos 1101

abbrev pub code_out_of_disk_space : ℤ
code_out_of_disk_space = pos 1102

abbrev pub code_too_many_open_files : ℤ
code_too_many_open_files = pos 1103

abbrev pub code_resource_conflict : ℤ
code_resource_conflict = pos 1104

abbrev pub code_container_limit_reached : ℤ
code_container_limit_reached = pos 1105

abbrev pub code_network_configuration : ℤ
code_network_configuration = pos 1200

abbrev pub code_network_not_found : ℤ
code_network_not_found = pos 1201

abbrev pub code_network_conflict : ℤ
code_network_conflict = pos 1202

abbrev pub code_subnet_overlap : ℤ
code_subnet_overlap = pos 1203

abbrev pub code_dns_resolution_failed : ℤ
code_dns_resolution_failed = pos 1204

abbrev pub code_port_conflict : ℤ
code_port_conflict = pos 1205

abbrev pub code_bridge_config_error : ℤ
code_bridge_config_error = pos 1206

abbrev pub code_ip_forwarding_disabled : ℤ
code_ip_forwarding_disabled = pos 1207

abbrev pub code_iptables_config_error : ℤ
code_iptables_config_error = pos 1208

abbrev pub code_mtu_mismatch : ℤ
code_mtu_mismatch = pos 1209

abbrev pub code_system_configuration : ℤ
code_system_configuration = pos 1300

abbrev pub code_permission_error : ℤ
code_permission_error = pos 1301

abbrev pub code_service_not_running : ℤ
code_service_not_running = pos 1302

abbrev pub code_configuration_missing : ℤ
code_configuration_missing = pos 1303

abbrev pub code_dependency_missing : ℤ
code_dependency_missing = pos 1304

abbrev pub code_timeout : ℤ
code_timeout = pos 1400

abbrev pub code_cancelled : ℤ
code_cancelled = pos 1401

abbrev pub code_deadline_exceeded : ℤ
code_deadline_exceeded = pos 1402

abbrev pub code_context_expired : ℤ
code_context_expired = pos 1403

abbrev pub code_circuit_breaker_open : ℤ
code_circuit_breaker_open = pos 1500

abbrev pub code_too_many_failures : ℤ
code_too_many_failures = pos 1501

abbrev pub code_service_unavailable : ℤ
code_service_unavailable = pos 1502

-- The cases of GetCodeString.
abbrev pub code_strings : List (ℤ × Text)
code_strings =
    (code_docker_daemon_unreachable, codes "Docker Daemon Unreachable")
    ∷ (code_docker_api_version_mismatch, codes "Docker API Version Mismatch")
    ∷ (code_docker_permission_denied, codes "Docker Permission Denied")
    ∷ (code_docker_socket_not_found, codes "Docker Socket Not Found")
    ∷ (code_docker_daemon_not_running, codes "Docker Daemon Not Running")
    ∷ (code_resource_exhaustion, codes "Resource Exhaustion")
    ∷ (code_out_of_memory, codes "Out of Memory")
    ∷ (code_out_of_disk_space, codes "Out of Disk Space")
    ∷ (code_too_many_open_files, codes "Too Many Open Files")
    ∷ (code_resource_conflict, codes "Resource Conflict")
    ∷ (code_container_limit_reached, codes "Container Limit Reached")
    ∷ (code_network_configuration, codes "Network Configuration Error")
    ∷ (code_network_not_found, codes "Network Not Found")
    ∷ (code_network_conflict, codes "Network Conflict")
    ∷ (code_subnet_overlap, codes "Subnet Overlap")
    ∷ (code_dns_resolution_failed, codes "DNS Resolution Failed")
    ∷ (code_port_conflict, codes "Port Conflict")
    ∷ (code_bridge_config_error, codes "Bridge Configuration Error")
    ∷ (code_ip_forwarding_disabled, codes "IP Forwarding Disabled")
    ∷ (code_iptables_config_error, codes "Iptables Configuration Error")
    ∷ (code_mtu_mismatch, codes "MTU Mismatch")
    ∷ (code_system_configuration, codes "System Configuration Error")
    ∷ (code_permission_error, codes "Permission Error")
    ∷ (code_service_not_running, codes "Service Not Running")
    ∷ (code_configuration_missing, codes "Configuration Missing")
    ∷ (code_dependency_missing, codes "Dependency Missing")
    ∷ (code_timeout, codes "Timeout")
    ∷ (code_cancelled, codes "Cancelled")
    ∷ (code_deadline_exceeded, codes "Deadline Exceeded")
    ∷ (code_context_expired, codes "Context Expired")
    ∷ (code_circuit_breaker_open, codes "Circuit Breaker Open")
    ∷ (code_too_many_failures, codes "Too Many Failures")
    ∷ (code_service_unavailable, codes "Service Unavailable")
    ∷ []
