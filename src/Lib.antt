-- ===== src/Lib.antt =====
-- Nebari infrastructure core: a client that validates a configuration, deploys a Kubernetes cluster
-- with a GitOps repository, Argo CD and DNS records, and destroys it again.
--
-- The parts and how they interact. `NebariConfig` is read from a file and validated with the names of
-- the registered providers (pkg/config, pkg/registry). The client (pkg/nic) looks the cluster provider
-- up, checks that it can serve the backups, calls it, bootstraps the repository (pkg/git) and hands the
-- endpoint to the DNS provider (pkg/providers/dns/cloudflare). A destruction goes the other way.
--
-- Files:
--   Prelude, Prelude/*         shared types, tests, lists, texts, errors, maps, integers, stateful calls
--   FilePath, FilePath/*       Go's path/filepath, as far as it is called: Clean, Join, Dir, IsAbs
--   Base64                     Go's encoding/base64, as far as it is called
--   Config/Cluster, Dns        pkg/config/config.go: ClusterConfig, DNSConfig (Validate, ProviderName,
--                              ProviderConfig)
--   Config/Certificate         pkg/config/config.go: CertificateConfig
--   Config/Backups, Cron       pkg/config/backups.go
--   Config/TrustBundle         pkg/config/trust_bundle.go
--   Config/Nebari              pkg/config/config.go: NebariConfig.Validate
--   Git, Git/Credentials       pkg/git/config.go
--   Git/Permissions            pkg/git/client_impl.go: upgradeLocalPermissions
--   Cloudflare                 pkg/providers/dns/cloudflare/provider.go; Cloudflare/Api its client
--                              interface, Cloudflare/Settings extractCloudflareConfig, Cloudflare/Memory
--                              a client over a list of records
--   Registry                   pkg/registry/providerlist.go, registry.go
--   Nic/Platform               the interfaces that pkg/nic calls (pkg/providers/cluster/provider.go,
--                              pkg/providers/dns/provider.go, pkg/git/client.go, pkg/argocd, pkg/endpoint)
--   Nic/Checks                 pkg/nic/validate.go, backups.go; backupBucketSpec of pkg/nic/deploy.go
--   Nic/Gitops, Nic/Secrets    pkg/nic/deploy.go: the repository, the secrets
--   Nic/Prepare, Nic/Deploy    pkg/nic/deploy.go: Client.Deploy
--   Nic/Destroy                pkg/nic/destroy.go
--   Witnesses, Witnesses/*     inputs at which the theorems apply
--   Longhorn                   pkg/storage/longhorn/backup.go
--   Aws/StateBucket            pkg/providers/cluster/aws/state.go; StateBucket/Service what S3 documents
--   Aws/Cleanup                pkg/providers/cluster/aws/cleanup.go
--   Aws/Batches                the loops of these two over slices of at most n elements
--   Aws/Version                pkg/providers/cluster/aws/version.go
--   Hetzner, Hetzner/Patterns  pkg/providers/cluster/hetzner/config.go
--   Hetzner/K3s                pkg/providers/cluster/hetzner/k3s.go
--   Hetzner/Volumes            pkg/providers/cluster/hetzner/cleanup.go
--   Endpoint                   pkg/endpoint/endpoint.go
-- The modules below a component hold its theorems. Types keep their Go names; a function `fooBar` is
-- `foo_bar`, and a method of several types stands in the module of its type (`Config.Backups.validate`
-- is BackupsConfig.Validate).
--
-- How the code is read. A pointer that may be nil is an Option. An error is a constructor that says
-- which error it is, with the error that it wraps; its text is left out, and so are tracing and status
-- messages. A call that changes something outside is a function of a state, the world, to a result and
-- the next world (Prelude/State); the world goes on from an error. A text is a sequence of code points,
-- and `bytes_of` gives its UTF-8 bytes. A map is an association list in the order of a range over it.
-- The integers of the program are only compared and are unbounded, but for the minor number of a version,
-- whose successor wraps around at 64 bits. File modes are the nine permission bits and the special ones.
-- What a loop receives from channels is a list of events; a paginator is the list of its pages.
--
-- What is a parameter: os.Stat, os.ReadFile, os.Getenv, os.UserHomeDir, net.ParseIP, the random reader,
-- the ssh libraries, the Cloudflare service (with what it documents: `IsLawful`), the cluster providers,
-- the Git client, Helm, Kubernetes, net.ParseCIDR, the calls of S3 (`Aws.StateBucket.Service`), ELB and
-- EC2, the HTTP API of Hetzner, what hetzner-k3s prints, the hash of an account, and at which paths a
-- call on files fails.
--
-- Bounds and fuel: every function is a structural recursion. The loops over batches run on the number of
-- elements as fuel, which is enough, since a round takes one at least; the attempts to delete a security
-- group count down from their bound of twelve.
--
-- Not modelled: the YAML decoder, the provisioning of the clusters, Argo CD and its templates, what the
-- Git client does through go-git, Longhorn's installation, and the command line; they drive other
-- programs and services, or only pass values on.
pub mod Prelude
pub mod FilePath
pub mod Git
pub mod Base64
pub mod Config
pub mod Cloudflare
pub mod Registry
pub mod Longhorn
pub mod Aws
pub mod Hetzner
pub mod Endpoint
pub mod Nic
pub mod Witnesses
