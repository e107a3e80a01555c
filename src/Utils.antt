-- ===== src/Utils.antt =====
-- The helpers of utils/utils.go, utils/imds.go, utils/resources.go and utils/rook.go.
pub mod Slices
pub mod Retry
pub mod PodName
pub mod Imds
pub mod Resources
pub mod Rook
