-- ===== src/Kubernetes.antt =====
-- proberca/k8s: the watch layer.
pub mod Supervisor
mod Samples
